-- ===== src/Timer/Table/Find.antt =====
-- The search for a timer by its address, through the operations of the ring.
use mathlib.Core.Path.{subst}
use bt_server.Common.{
  ℕ, ◌≡◌, refl, sym, ◌∙◌, inl, inr, none, some, List, [], ◌∷◌, arith, ==-refl, ==_iff, ne→==, ◌==◌,
  if◌then◌else◌, ltb, Bool-cases,
}
use bt_server.Timer.{Timer, find, list_del}
use bt_server.Timer.Order.{insert_sorted, Absent, Distinct}
use bt_server.Timer.Operations.{without}

find-Absent : (p : ℕ) (list : List Timer) → Absent p list → find p list ≡ none
unfolding find
find-Absent p [] a = refl
find-Absent p (vec ∷ rest) (ne, a) = rw (ne→== vec.address p ne, find-Absent p rest a) refl

pub Absent-find : (p : ℕ) (list : List Timer) → find p list ≡ none → Absent p list
unfolding find
Absent-find p [] h = tt
Absent-find p (vec ∷ rest) h = elim (Bool-cases (vec.address == p)) [
  | inl e ↦ absurd (cc (rw e at h))
  | inr e ↦ ((λ q. cc (e, ==-refl p, q)), Absent-find p rest (rw e at h))
]

pub find-insert_sorted :
    (t : Timer) (list : List Timer) (q : ℕ)
    → Absent t.address list
    → find q (insert_sorted t list) ≡ (if t.address == q then some t else find q list)
unfolding find
find-insert_sorted t [] q a = refl
find-insert_sorted t (vec ∷ rest) q (ne, a) = elim (Bool-cases (ltb t.interval vec.interval)) [
  | inl l ↦ rw l refl
  | inr l ↦
      rw (l, find-insert_sorted t rest q a)
        (elim (Bool-cases (vec.address == q)) [
          | inl e ↦
              let eq = (==_iff vec.address q).0 e in
              rw (e, ne→== t.address q (λ z. ne (eq ∙ sym z))) refl
          | inr e ↦ rw e refl
        ])
]

pub find-without :
    (p : ℕ) (list : List Timer) (q : ℕ)
    → Distinct list
    → find q (without p list) ≡ (if p == q then none else find q list)
unfolding find
find-without p [] q d = ground arith
find-without p (vec ∷ rest) q (a, d) = elim (Bool-cases (vec.address == p)) [
  | inl e ↦
      let eq = (==_iff vec.address p).0 e in
      rw e (elim (Bool-cases (p == q)) [
        | inl z ↦
            let eq' = (==_iff p q).0 z in
            rw z (find-Absent q rest (subst (λ x. Absent x rest) (eq ∙ eq') a))
        | inr z ↦ rw (z, eq, z) refl
      ])
  | inr e ↦
      rw (e, find-without p rest q d)
        (elim (Bool-cases (vec.address == q)) [
          | inl z ↦ let eq = (==_iff vec.address q).0 z in rw (z, ne→== p q (λ w. cc (e, w))) refl
          | inr z ↦ rw z refl
        ])
]

pub list_del-missing : (p : ℕ) (list : List Timer) → find p list ≡ none → list_del p list ≡ none
unfolding find list_del
list_del-missing p [] h = refl
list_del-missing p (vec ∷ rest) h = elim (Bool-cases (vec.address == p)) [
  | inl e ↦ absurd (cc (rw e at h))
  | inr e ↦ rw (e, list_del-missing p rest (rw e at h)) refl
]
