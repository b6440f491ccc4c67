-- ===== src/Timer/Operations.antt =====
-- What bt_timer_add, bt_timer_del, bt_timer_update and bt_timer_finit of src/bt_timer.c do to the
-- ring of timers.
use bt_server.Common.{
  ℕ, ◌+◌, ◌≤◌, ◌≡◌, ◌≢◌, refl, ◌∙◌, ap, inl, inr, some, List, [], ◌∷◌, arith, ==-refl, ==_iff, ◌==◌,
  if◌then◌else◌, Bool-cases, All,
}
use bt_server.Timer.{
  Timer, TimerList, zero_value, list_del, enqueue, find, bt_timer_add, bt_timer_del,
  bt_timer_update, free_block, del_all, bt_timer_finit,
}
use bt_server.Timer.Order.{
  insert_sorted, Absent, Distinct, Sorted, enqueue_lem, insert_sorted-Sorted,
  insert_sorted-Distinct, list_del-insert_sorted,
}

-- The ring is in the order of the intervals and holds no node twice.
pub record IsQueue (s : TimerList) : Type 0 where
  pub sorted : Sorted s.list
  pub distinct : Distinct s.list

-- The timer that a call of bt_timer_add sets up.
abbrev pub fresh_timer : ℕ → ℕ → ℕ → ℕ → ℕ → ℕ → Timer
fresh_timer address id func arg interval type = record {
  address = address;
  timer_id = id;
  callback = func;
  arg = arg;
  type = type;
  interval = interval;
  elapse = 0;
}

abbrev pub with_timer : TimerList → Timer → TimerList
with_timer s t = record s {
  list = insert_sorted t s.list;
  num = s.num + 1;
  blocks = t.address ∷ s.blocks;
}

bt_timer_add_eq :
    (s : TimerList) (address func arg interval type : ℕ)
    → Distinct s.list
    → let t = fresh_timer address s.num func arg interval type in
      bt_timer_add (some address) func arg interval type s ≡ some (with_timer s t, t)
unfolding bt_timer_add
bt_timer_add_eq s address func arg interval type d =
    rw (enqueue_lem (fresh_timer address s.num func arg interval type) s.list d)

pub bt_timer_del_eq :
    (p : ℕ) (s : TimerList) {rest : List Timer}
    → list_del p s.list ≡ some rest
    → bt_timer_del p s ≡ some (record s { list = rest; blocks = free_block p s.blocks })
unfolding bt_timer_del
bt_timer_del_eq p s h = rw (h, bt_timer_del)

free_block_head : (p : ℕ) (qs : List ℕ) → free_block p (p ∷ qs) ≡ qs
unfolding free_block
free_block_head p qs = rw (==-refl p)

-- At a node that the ring does not hold, bt_timer_add puts a timer with the next id and no elapsed
-- time behind every timer whose interval is no larger and before all others; the ring stays in
-- order and without repeats. Deleting the new timer then succeeds and gives back the ring and the
-- blocks as they were, with the id used up.
pub bt_timer_add-del :
    (s : TimerList) (address func arg interval type : ℕ)
    → IsQueue s
    → Absent address s.list
    → let t = fresh_timer address s.num func arg interval type in
      (bt_timer_add (some address) func arg interval type s ≡ some (with_timer s t, t))
      × IsQueue (with_timer s t)
      × (bt_timer_del address (with_timer s t) ≡ some (record s { num = s.num + 1 }))
bt_timer_add-del s address func arg interval type q a =
    let t = fresh_timer address s.num func arg interval type in
    let del =
      bt_timer_del_eq address (with_timer s t) (list_del-insert_sorted t s.list a)
      ∙ ap (λ b. some (record s { num = s.num + 1; blocks = b }))
          (free_block_head address s.blocks) in
    (
      bt_timer_add_eq s address func arg interval type q.distinct,
      record {
        sorted = insert_sorted-Sorted t s.list q.sorted;
        distinct = insert_sorted-Distinct t s.list a q.distinct;
      },
      del,
    )

-- The other entries, in their order.
abbrev pub without : ℕ → List Timer → List Timer
without p [] = []
without p (vec ∷ rest) = if vec.address == p then rest else vec ∷ without p rest

pub list_del_found :
    (p : ℕ) (list : List Timer) {t : Timer}
    → find p list ≡ some t
    → list_del p list ≡ some (without p list)
unfolding find list_del
list_del_found p [] h = cc
list_del_found p (vec ∷ rest) h = elim (Bool-cases (vec.address == p)) [
  | inl e ↦ rw e
  | inr e ↦ rw (e, list_del_found p rest (rw e at h))
]

pub find-address : (p : ℕ) (list : List Timer) {t : Timer} → find p list ≡ some t → t.address ≡ p
unfolding find
find-address p [] h = cc
find-address p (vec ∷ rest) {t} h = ground (arith, find-address p rest {t = t})

pub All-without {ℓ} :
    (P : Timer → Type ℓ) (p : ℕ) (list : List Timer) → All P list → All P (without p list)
All-without P p [] h = tt
All-without P p (vec ∷ rest) (q, h) = elim (Bool-cases (vec.address == p)) [
  | inl e ↦ rw e h
  | inr e ↦ rw e (q, All-without P p rest h)
]

pub without-Sorted : (p : ℕ) (list : List Timer) → Sorted list → Sorted (without p list)
without-Sorted p [] h = tt
without-Sorted p (vec ∷ rest) h = elim (Bool-cases (vec.address == p)) [
  | inl e ↦ rw e h.1
  | inr e ↦
      rw e (All-without (λ u. vec.interval ≤ u.interval) p rest h.0, without-Sorted p rest h.1)
]

pub without-Distinct : (p : ℕ) (list : List Timer) → Distinct list → Distinct (without p list)
without-Distinct p [] h = tt
without-Distinct p (vec ∷ rest) h = elim (Bool-cases (vec.address == p)) [
  | inl e ↦ rw e h.1
  | inr e ↦
      rw e (All-without (λ u. u.address ≢ vec.address) p rest h.0, without-Distinct p rest h.1)
]

pub without-Absent : (p : ℕ) (list : List Timer) → Distinct list → Absent p (without p list)
without-Absent p [] h = tt
without-Absent p (vec ∷ rest) h = elim (Bool-cases (vec.address == p)) [
  | inl e ↦ rw e (rw ((==_iff vec.address p).0 e) at h.0)
  | inr e ↦ rw e ((λ q. cc (e, ==-refl p, q)), without-Absent p rest h.1)
]

bt_timer_update_eq :
    (p : ℕ) (s : TimerList) {t : Timer} {rest : List Timer}
    → find p s.list ≡ some t
    → list_del p s.list ≡ some rest
    → bt_timer_update p s ≡ some (record s { list = enqueue (record t { elapse = 0 }) rest })
unfolding bt_timer_update
bt_timer_update_eq p s h d = rw (h, d, bt_timer_update)

-- bt_timer_update of a timer in the ring restarts it: with no elapsed time it goes behind every
-- other timer whose interval is no larger; the others keep their order and values, and the ring
-- stays in order and without repeats.
pub bt_timer_update_lem :
    (s : TimerList) (p : ℕ) {t : Timer}
    → IsQueue s
    → find p s.list ≡ some t
    → let restarted = insert_sorted (record t { elapse = 0 }) (without p s.list) in
      (bt_timer_update p s ≡ some (record s { list = restarted }))
      × IsQueue (record s { list = restarted })
bt_timer_update_lem s p {t} q h =
    let rest = without p s.list in
    let fresh : Timer = record t { elapse = 0 } in
    let distinct = without-Distinct p s.list q.distinct in
    (
      bt_timer_update_eq p s h (list_del_found p s.list h)
          ∙ ap (λ xs. some (record s { list = xs })) (enqueue_lem fresh rest distinct),
      record {
        sorted = insert_sorted-Sorted fresh rest (without-Sorted p s.list q.sorted);
        distinct =
            insert_sorted-Distinct fresh rest
              (rw (find-address p s.list h) (without-Absent p s.list q.distinct)) distinct;
      },
    )

abbrev pub free_all : List Timer → List ℕ → List ℕ
free_all [] qs = qs
free_all (vec ∷ rest) qs = free_all rest (free_block vec.address qs)

del_all_eq :
    (list : List Timer) (s : TimerList)
    → s.list ≡ list
    → del_all list s ≡ some (record s { list = []; blocks = free_all list s.blocks })
unfolding del_all list_del
del_all_eq [] s e = λ i. some (record s { list = e i })
del_all_eq (vec ∷ rest) s e =
    let found : list_del vec.address s.list ≡ some rest = rw (e, ==-refl vec.address) in
    rw (bt_timer_del_eq vec.address s found, del_all)
      (del_all_eq rest (record s { list = rest; blocks = free_block vec.address s.blocks }) refl)

-- bt_timer_finit succeeds on every ring: it deletes and frees each timer, puts the old handler of
-- SIGALRM back and clears the state. ITIMER_REAL is left as it was, so if bt_timer_init had armed
-- it, it goes on firing.
pub bt_timer_finit_lem :
    (s : TimerList)
    → bt_timer_finit s
      ≡ some (record {
        list = [];
        value = zero_value;
        old_sigfunc = 0;
        new_sigfunc = 0;
        num = 0;
        handler = s.old_sigfunc;
        itimer = s.itimer;
        blocks = free_all s.list s.blocks;
      })
unfolding bt_timer_finit
bt_timer_finit_lem s =
    rw (del_all_eq s.list (record s { handler = s.old_sigfunc }) refl, bt_timer_finit)
