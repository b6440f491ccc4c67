-- ===== src/Timer/Ring.antt =====
-- Every run of the handler of src/bt_timer.c keeps the ring in order, whatever the timers are.
use mathlib.Core.Path.{subst}
use bt_server.Common.{
  ℕ, zero, suc, ◌+◌, ◌%◌, ◌^◌, ◌≤◌, ◌≡◌, ◌≢◌, refl, ap, ◌∙◌, inl, inr, Option, none, some, List, [],
  ◌∷◌, arith, ==-refl, ==_iff, ◌==◌, leb, not, Bool-cases, All,
}
use bt_server.Timer.{
  Timer, Call, Pass, done, spin, bt_timer_single, find, enqueue, replace, expire, logged, next_of,
  visit, first_entry, bt_timer_func,
}
use bt_server.Timer.Order.{
  Distinct, Sorted, enqueue_lem, All-insert_sorted, insert_sorted-Sorted, insert_sorted-Distinct,
}
use bt_server.Timer.Operations.{
  without, list_del_found, find-address, All-without, without-Sorted, without-Distinct,
  without-Absent,
}

-- In the order of the intervals and without repeats; `Q` holds of every node.
pub record IsRing (Q : ℕ → Type 0) (list : List Timer) : Type 0 where
  pub sorted : Sorted list
  pub distinct : Distinct list
  pub nodes : All (λ t. Q t.address) list

found_head : (vec : Timer) {t : Timer} → ◌≡◌ {A = Option Timer} (some vec) (some t) → vec ≡ t
found_head vec h = cc

pub All-find {ℓ} :
    (P : Timer → Type ℓ) (p : ℕ) (list : List Timer) {t : Timer}
    → find p list ≡ some t
    → All P list
    → P t
unfolding find
All-find P p [] h a = absurd (cc)
All-find P p (vec ∷ rest) {t} h (q, a) = elim (Bool-cases (vec.address == p)) [
  | inl e ↦ subst P (found_head vec (rw e at h)) q
  | inr e ↦ All-find P p rest (rw e at h) a
]

All-replace {ℓ} :
    (P : Timer → Type ℓ) (t : Timer) (list : List Timer) → P t → All P list → All P (replace t list)
unfolding replace
All-replace P t [] p h = tt
All-replace P t (vec ∷ rest) p (q, h) = elim (Bool-cases (vec.address == t.address)) [
  | inl e ↦ rw e (p, h)
  | inr e ↦ rw e (q, All-replace P t rest p h)
]

replace-Sorted :
    (t : Timer) (list : List Timer) {u : Timer}
    → find t.address list ≡ some u
    → u.interval ≡ t.interval
    → Sorted list
    → Sorted (replace t list)
unfolding find replace
replace-Sorted t [] h i s = absurd (cc)
replace-Sorted t (vec ∷ rest) {u} h i s = elim (Bool-cases (vec.address == t.address)) [
  | inl e ↦
      let same : vec.interval ≡ t.interval =
        ap (λ (x : Timer). x.interval) (found_head vec (rw e at h)) ∙ i in
      rw e (rw same at s)
  | inr e ↦
      let h' = rw e at h in
      let le : vec.interval ≤ u.interval =
        All-find (λ x. vec.interval ≤ x.interval) t.address rest h' s.0 in
      rw e (
        All-replace (λ x. vec.interval ≤ x.interval) t rest (omega arith) s.0,
        replace-Sorted t rest h' i s.1,
      )
]

replace-Distinct : (t : Timer) (list : List Timer) → Distinct list → Distinct (replace t list)
unfolding replace
replace-Distinct t [] d = tt
replace-Distinct t (vec ∷ rest) d = elim (Bool-cases (vec.address == t.address)) [
  | inl e ↦
      let same : vec.address ≡ t.address = (==_iff vec.address t.address).0 e in rw e (rw same at d)
  | inr e ↦ rw e (
    All-replace (λ x. x.address ≢ vec.address) t rest (λ q. cc (e, ==-refl t.address, q)) d.0,
    replace-Distinct t rest d.1,
  )
]

-- A node that is put back into a ring that it was taken out of.
enqueue-IsRing :
    {Q : ℕ → Type 0} (t : Timer) (list : List Timer)
    → IsRing Q list
    → Q t.address
    → IsRing Q (enqueue t (without t.address list))
enqueue-IsRing t list r q =
    let rest = without t.address list in
    let distinct = without-Distinct t.address list r.distinct in
    rw (enqueue_lem t rest distinct) (record {
      sorted = insert_sorted-Sorted t rest (without-Sorted t.address list r.sorted);
      distinct = insert_sorted-Distinct t rest (without-Absent t.address list r.distinct) distinct;
      nodes = All-insert_sorted _ t rest q (All-without _ t.address list r.nodes);
    })

without-IsRing :
    {Q : ℕ → Type 0} (p : ℕ) (list : List Timer) → IsRing Q list → IsRing Q (without p list)
without-IsRing p list r = record {
  sorted = without-Sorted p list r.sorted;
  distinct = without-Distinct p list r.distinct;
  nodes = All-without _ p list r.nodes;
}

expire-IsRing :
    {Q : ℕ → Type 0} (t : Timer) (list : List Timer)
    → find t.address list ≡ some t
    → IsRing Q list
    → IsRing Q (expire t list).0
unfolding expire
expire-IsRing {Q} t list h r =
    let aged : Timer = record t { elapse = (t.elapse + 1) % 2 ^ 32 } in
    let q : Q t.address = All-find (λ x. Q x.address) t.address list h r.nodes in
    rw (list_del_found t.address list h) (elim (Bool-cases (leb aged.interval aged.elapse)) [
      | inl e ↦ rw e (elim (Bool-cases (not (t.type == bt_timer_single))) [
        | inl z ↦ rw z (enqueue-IsRing (record t { elapse = 0 }) list r q)
        | inr z ↦ rw z (without-IsRing t.address list r)
      ])
      | inr e ↦ rw e (record {
        sorted = replace-Sorted aged list h refl r.sorted;
        distinct = replace-Distinct aged list r.distinct;
        nodes = All-replace _ aged list q r.nodes;
      })
    ])

-- What holds of the ring that a pass leaves, if it ends.
pub data Leaves (R : List Timer → Type 0) : Pass → Type 0 where
  left : {list : List Timer} {calls : List Call} → R list → Leaves R (done list calls)
  endless : Leaves R spin

logged-Leaves :
    {R : List Timer → Type 0} (c : Option Call) (p : Pass) → Leaves R p → Leaves R (logged c p)
logged-Leaves c (done list calls) (left h) = left h
logged-Leaves c spin h = endless

abbrev visited : Option Timer → List Timer → List Timer × Option Call
visited t list = elim t [ none ↦ (list, none) | some t ↦ expire t list ]

visited-IsRing :
    {Q : ℕ → Type 0} (p : ℕ) (list : List Timer) (t : Option Timer)
    → find p list ≡ t
    → IsRing Q list
    → IsRing Q (visited t list).0
visited-IsRing p list none h r = r
visited-IsRing p list (some t) h r =
    expire-IsRing t list (ap (λ q. find q list) (find-address p list h) ∙ h) r

visit-Leaves :
    {Q : ℕ → Type 0} (f : ℕ) (pos n : Option ℕ) (list : List Timer)
    → IsRing Q list
    → Leaves (IsRing Q) (visit f pos n list)
unfolding visit
visit-Leaves zero pos n list r = endless
visit-Leaves (suc f) none n list r = left r
visit-Leaves (suc f) (some p) n list r =
    let step = visited (find p list) list in
    logged-Leaves step.1 (visit f n (next_of n step.0) step.0)
      (visit-Leaves f n (next_of n step.0) step.0 (visited-IsRing p list (find p list) refl r))

-- Whatever timers are in the ring, also with equal intervals, a run of the handler that ends leaves
-- it in order and without repeats, and it brings no node into it.
pub bt_timer_func-IsRing :
    {Q : ℕ → Type 0} (f : ℕ) (list : List Timer)
    → IsRing Q list
    → Leaves (IsRing Q) (bt_timer_func f list)
unfolding bt_timer_func
bt_timer_func-IsRing f list r =
    visit-Leaves f (first_entry list) (next_of (first_entry list) list) list r
