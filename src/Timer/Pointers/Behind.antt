-- ===== src/Timer/Pointers/Behind.antt =====
-- The entry behind the one that the handler of src/bt_timer.c visits stays in the ring.
use mathlib.Core.Path.{subst}
use bt_server.Common.{
  ℕ, ◌≡◌, ◌≢◌, refl, sym, ◌∙◌, inl, inr, false, Option, none, some, List, [], ◌∷◌, leb, not, ◌==◌,
  ==_iff, ==-refl, ne→==, Bool-cases,
}
use bt_server.Timer.{
  Timer, Call, Pass, done, spin, bt_timer_single, find, replace, first_entry, next_entry, next_of,
  logged,
}
use bt_server.Timer
use bt_server.Timer.Order.{Distinct, Absent}
use bt_server.Timer.Operations.{without, find-address, without-Absent}
use bt_server.Timer.Ring.{All-find}
use bt_server.Timer.Table.Find.{find-insert_sorted, find-without}
use bt_server.Timer.Pointers.Sequence.{aged, reset, sequence_early, sequence_due}

-- An entry that is there, or the head
abbrev Present : Option ℕ → List Timer → Type 0
Present none list = Unit
Present (some p) list = (t : Timer) × (find p list ≡ some t)

find-replace :
    (t : Timer) (list : List Timer) (q : ℕ) → q ≢ t.address → find q (replace t list) ≡ find q list
unfolding find replace
find-replace t [] q n = refl
find-replace t (u ∷ rest) q n = elim (Bool-cases (u.address == t.address)) [
  | inl e ↦
      let eq = (==_iff u.address t.address).0 e in
      rw (e, eq, ne→== t.address q (λ z. n (sym z))) refl
  | inr e ↦ rw (e, find-replace t rest q n) refl
]

-- A round leaves the other timers where they can be find-first.
pub expire-find :
    (t : Timer) (list : List Timer) (q : ℕ)
    → Distinct list
    → find t.address list ≡ some t
    → q ≢ t.address
    → find q (Timer.expire t list).0 ≡ find q list
expire-find t list q d e n =
    let off : (t.address == q) ≡ false = ne→== t.address q (λ z. n (sym z)) in
    let rest = find-without t.address list q d ∙ rw off refl in
    elim (Bool-cases (leb t.interval (aged t).elapse)) [
      | inl h ↦
          rw (sequence_due t list h e d) (elim (Bool-cases (not (t.type == bt_timer_single))) [
            | inl s ↦ rw s (
                find-insert_sorted (reset t) (without t.address list) q
                  (without-Absent t.address list d)
                ∙ rw off rest)
            | inr s ↦ rw s rest
          ])
      | inr h ↦ rw (sequence_early t list h) (find-replace (aged t) list q n)
    ]

-- The entry behind another is there, and another.
abbrev pub Behind : ℕ → Option ℕ → List Timer → Type 0
Behind p none list = Unit
Behind p (some q) list = (q ≢ p) × ((t : Timer) × (find q list ≡ some t))

first-Behind : (p : ℕ) (list : List Timer) → Absent p list → Behind p (first_entry list) list
unfolding first_entry find
first-Behind p [] a = tt
first-Behind p (t ∷ rest) (n, a) = (n, (t, rw (==-refl t.address) refl))

Behind-cons :
    (p : ℕ) (o : Option ℕ) (t : Timer) (rest : List Timer)
    → Absent t.address rest
    → Behind p o rest
    → Behind p o (t ∷ rest)
unfolding find
Behind-cons p none t rest a b = tt
Behind-cons p (some q) t rest a (n, (u, e)) =
    let off : t.address ≢ q =
      λ z. All-find (λ v. v.address ≢ t.address) q rest e a (find-address q rest e ∙ sym z) in
    (n, (u, rw (ne→== t.address q off) e))

pub next_entry-Behind :
    (p : ℕ) (list : List Timer) → Distinct list → Behind p (next_entry p list) list
unfolding next_entry
next_entry-Behind p [] d = tt
next_entry-Behind p (t ∷ rest) (a, d) = elim (Bool-cases (t.address == p)) [
  | inl e ↦
      let eq = (==_iff t.address p).0 e in
      rw e (
        Behind-cons p (first_entry rest) t rest a
          (first-Behind p rest (subst (λ q. Absent q rest) eq a)))
  | inr e ↦ rw e (Behind-cons p (next_entry p rest) t rest a (next_entry-Behind p rest d))
]
