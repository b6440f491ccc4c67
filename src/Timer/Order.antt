-- ===== src/Timer/Order.antt =====
-- src/bt_timer.c keeps the ring in the order of the intervals, and adds and removes one entry.
use bt_server.Common.{
  ℕ, ◌≤◌, ◌≡◌, ◌≢◌, refl, sym, ap, inl, inr, Option, none, some, List, [], ◌∷◌, arith, ltb, ==-refl,
  ne→==, if◌then◌else◌, Bool-cases, All,
}
use bt_server.Timer.{Timer, get_position, insert_before, list_add_tail, list_del, enqueue}

-- Insertion behind every entry whose interval is no larger: where a queue of equals would put it.
abbrev pub insert_sorted : Timer → List Timer → List Timer
insert_sorted t [] = t ∷ []
insert_sorted t (vec ∷ rest) =
    if ltb t.interval vec.interval then t ∷ vec ∷ rest else vec ∷ insert_sorted t rest

-- No entry of the ring is at the address.
abbrev pub Absent : ℕ → List Timer → Type 0
Absent p = All (λ t. t.address ≢ p)

-- The entries are distinct nodes.
abbrev pub Distinct : List Timer → Type 0
Distinct [] = Unit
Distinct (t ∷ rest) = Absent t.address rest × Distinct rest

-- Intervals never fall along the ring.
abbrev pub Sorted : List Timer → Type 0
Sorted [] = Unit
Sorted (t ∷ rest) = All (λ u. t.interval ≤ u.interval) rest × Sorted rest

get_position-Absent : (i p : ℕ) (list : List Timer) → Absent p list → get_position i list ≢ some p
unfolding get_position
get_position-Absent i p [] h = cc
get_position-Absent i p (vec ∷ rest) h = ground (arith, get_position-Absent i p rest h.1)

list_add_tail_behind :
    (t vec : Timer) (rest : List Timer) (pos : Option ℕ)
    → pos ≢ some vec.address
    → list_add_tail t pos (vec ∷ rest) ≡ vec ∷ list_add_tail t pos rest
unfolding list_add_tail
list_add_tail_behind t vec rest none h = refl
list_add_tail_behind t vec rest (some p) h = rw (ne→== vec.address p (λ e. h (ap some (sym e))))

-- The two-step insertion of the source is the insertion into a sorted list.
pub enqueue_lem :
    (t : Timer) (list : List Timer) → Distinct list → enqueue t list ≡ insert_sorted t list
unfolding enqueue
enqueue_lem t [] h = refl
enqueue_lem t (vec ∷ rest) h = elim (Bool-cases (ltb t.interval vec.interval)) [
  | inl e ↦ rw (e, list_add_tail, insert_before, ==-refl vec.address)
  | inr e ↦
      rw
        (e, list_add_tail_behind t vec rest _ (get_position-Absent t.interval vec.address rest h.0))
        (ap (λ xs. vec ∷ xs) (enqueue_lem t rest h.1))
]

pub All-insert_sorted {ℓ} :
    (P : Timer → Type ℓ) (t : Timer) (list : List Timer)
    → P t
    → All P list
    → All P (insert_sorted t list)
All-insert_sorted P t [] p h = (p, tt)
All-insert_sorted P t (vec ∷ rest) p (q, h) = elim (Bool-cases (ltb t.interval vec.interval)) [
  | inl e ↦ rw e (p, (q, h))
  | inr e ↦ rw e (q, All-insert_sorted P t rest p h)
]

All-le_trans :
    (i j : ℕ) (list : List Timer)
    → i ≤ j
    → All (λ u. j ≤ u.interval) list
    → All (λ u. i ≤ u.interval) list
All-le_trans i j [] h a = tt
All-le_trans i j (u ∷ rest) h (p, a) = (omega arith, All-le_trans i j rest h a)

pub insert_sorted-Sorted :
    (t : Timer) (list : List Timer) → Sorted list → Sorted (insert_sorted t list)
insert_sorted-Sorted t [] h = (tt, tt)
insert_sorted-Sorted t (vec ∷ rest) h = elim (Bool-cases (ltb t.interval vec.interval)) [
  | inl e ↦
      let le : t.interval ≤ vec.interval = ground arith in
      rw e ((le, All-le_trans t.interval vec.interval rest le h.0), h)
  | inr e ↦
      let le : vec.interval ≤ t.interval = ground arith in
      rw e (
        All-insert_sorted (λ u. vec.interval ≤ u.interval) t rest le h.0,
        insert_sorted-Sorted t rest h.1,
      )
]

pub insert_sorted-Distinct :
    (t : Timer) (list : List Timer)
    → Absent t.address list
    → Distinct list
    → Distinct (insert_sorted t list)
insert_sorted-Distinct t [] a h = (tt, tt)
insert_sorted-Distinct t (vec ∷ rest) (ne, a) h = elim (Bool-cases (ltb t.interval vec.interval)) [
  | inl e ↦ rw e ((λ q. ne q, a), h)
  | inr e ↦ rw e (
    All-insert_sorted (λ u. u.address ≢ vec.address) t rest (λ q. ne (sym q)) h.0,
    insert_sorted-Distinct t rest a h.1,
  )
]

list_del_head :
    (p : ℕ) (vec : Timer) (rest : List Timer)
    → vec.address ≡ p
    → list_del p (vec ∷ rest) ≡ some rest
unfolding list_del
list_del_head p vec rest e = rw (e, ==-refl p)

list_del_tail :
    (p : ℕ) (vec : Timer) (rest : List Timer) {rest' : List Timer}
    → vec.address ≢ p
    → list_del p rest ≡ some rest'
    → list_del p (vec ∷ rest) ≡ some (vec ∷ rest')
unfolding list_del
list_del_tail p vec rest e h = rw (ne→== vec.address p e, h)

-- The entry that was put in comes out, and the others keep their order.
pub list_del-insert_sorted :
    (t : Timer) (list : List Timer)
    → Absent t.address list
    → list_del t.address (insert_sorted t list) ≡ some list
list_del-insert_sorted t [] a = list_del_head t.address t [] refl
list_del-insert_sorted t (vec ∷ rest) (ne, a) = elim (Bool-cases (ltb t.interval vec.interval)) [
  | inl e ↦ rw e (list_del_head t.address t (vec ∷ rest) refl)
  | inr e ↦ rw e (list_del_tail t.address vec _ ne (list_del-insert_sorted t rest a))
]
