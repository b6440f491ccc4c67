-- ===== src/Timer/Pointers/Shape.antt =====
-- Which sequence of timers a ring in memory stands for.
use bt_server.Common.{
  true, ℕ, ◌≡◌, refl, sym, ap, inl, inr, Option, none, some, List, [], ◌∷◌, ◌++◌, All, ltb, ◌==◌,
  ==_iff, Bool-cases,
}
use bt_server.Links.{poison1}
use bt_server.Links.Ring.{NotIn, first, IsRing}
use bt_server.Links.Ring
use bt_server.Timer.{Timer, find, replace, first_entry, next_entry, get_position}
use bt_server.Timer.Order.{insert_sorted, Absent, Distinct}
use bt_server.Timer.Operations.{without}
use bt_server.Timer.Pointers.{Memory}

abbrev pub addresses : List Timer → List ℕ
addresses [] = []
addresses (t ∷ rest) = t.address ∷ addresses rest

-- The nodes of the ring are those of the timers, in order, with their fields.
pub record Shows (m : Memory) (list : List Timer) : Type 0 where
  pub ring : IsRing m.head (addresses list) m.links
  pub bodies : All (λ t. m.body t.address ≡ t) list

-- What is in memory and not in the ring has the link that list_del leaves.
abbrev pub Poisoned : Memory → List Timer → Type 0
Poisoned m list =
    (q : ℕ) → m.links.live q ≡ true → NotIn q (m.head ∷ addresses list) → m.links.next q ≡ poison1

-- An entry of the ring, or its head
abbrev pub node : ℕ → Option ℕ → ℕ
node head none = head
node head (some p) = p

pub node-first_entry :
    (head : ℕ) (list : List Timer) → node head (first_entry list) ≡ first (addresses list) head
unfolding first_entry
node-first_entry head [] = refl
node-first_entry head (t ∷ rest) = refl

pub addresses-append : (xs ys : List Timer) → addresses (xs ++ ys) ≡ addresses xs ++ addresses ys
addresses-append [] ys = refl
addresses-append (x ∷ xs) ys = ap (λ ps. x.address ∷ ps) (addresses-append xs ys)

NotIn-Absent : (p : ℕ) (list : List Timer) → NotIn p (addresses list) → Absent p list
NotIn-Absent p [] h = tt
NotIn-Absent p (t ∷ rest) (n, h) = (n, NotIn-Absent p rest h)

pub Absent-NotIn : (p : ℕ) (list : List Timer) → Absent p list → NotIn p (addresses list)
Absent-NotIn p [] h = tt
Absent-NotIn p (t ∷ rest) (n, h) = (n, Absent-NotIn p rest h)

pub addresses-Distinct : (list : List Timer) → Ring.Distinct (addresses list) → Distinct list
addresses-Distinct [] d = tt
addresses-Distinct (t ∷ rest) (n, d) = (NotIn-Absent t.address rest n, addresses-Distinct rest d)

-- Where insert_sorted puts a timer is where get_position says.
pub insert_sorted-split :
    (head : ℕ) (t : Timer) (list : List Timer)
    → (pre : List Timer) × (post : List Timer) × (list ≡ pre ++ post)
      × (insert_sorted t list ≡ pre ++ t ∷ post)
      × (node head (get_position t.interval list) ≡ first (addresses post) head)
unfolding get_position
insert_sorted-split head t [] = ([], [], refl, refl, refl)
insert_sorted-split head t (vec ∷ rest) = elim (Bool-cases (ltb t.interval vec.interval)) [
  | inl e ↦ ([], vec ∷ rest, refl, rw e refl, rw e refl)
  | inr e ↦
      let (pre, post, a, b, c) = insert_sorted-split head t rest in
      (vec ∷ pre, post, ap (λ xs. vec ∷ xs) a, rw (e, b) refl, rw (e, c) refl)
]

same : {t u : Timer} → ◌≡◌ {A = Option Timer} (some t) (some u) → t ≡ u
same h = cc

-- Where a timer is found is where it is taken out, and what is behind it.
pub find-split :
    (p : ℕ) (list : List Timer) {t : Timer}
    → find p list ≡ some t
    → (pre : List Timer) × (post : List Timer) × (list ≡ pre ++ t ∷ post)
      × (without p list ≡ pre ++ post)
      × (next_entry p list ≡ first_entry post)
unfolding find next_entry
find-split p [] h = absurd (cc)
find-split p (vec ∷ rest) {t} h = elim (Bool-cases (vec.address == p)) [
  | inl e ↦ ([], rest, ap (λ x. x ∷ rest) (same (rw e at h)), rw e refl, rw e refl)
  | inr e ↦
      let (pre, post, a, b, c) = find-split p rest (rw e at h) in
      (vec ∷ pre, post, ap (λ xs. vec ∷ xs) a, rw (e, b) refl, rw (e, c) refl)
]

pub addresses-replace :
    (t : Timer) (list : List Timer) → addresses (replace t list) ≡ addresses list
unfolding replace
addresses-replace t [] = refl
addresses-replace t (vec ∷ rest) = elim (Bool-cases (vec.address == t.address)) [
  | inl e ↦ rw e (ap (λ p. p ∷ addresses rest) (sym ((==_iff vec.address t.address).0 e)))
  | inr e ↦ rw (e, addresses-replace t rest) refl
]

pub All-addresses {ℓ} :
    (P : ℕ → Type ℓ) (list : List Timer) → All P (addresses list) → All (λ t. P t.address) list
All-addresses P [] h = tt
All-addresses P (t ∷ rest) (p, h) = (p, All-addresses P rest h)
