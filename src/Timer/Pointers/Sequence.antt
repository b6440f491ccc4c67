-- ===== src/Timer/Pointers/Sequence.antt =====
-- The round of the handler of src/bt_timer.c on the sequence, and the number of timers.
use bt_server.Common.{
  ℕ, ◌+◌, ◌%◌, ◌^◌, ◌≡◌, refl, inl, inr, true, false, none, some, List, [], ◌∷◌, ltb, leb, not,
  ◌==◌, Bool-cases, if◌then◌else◌, length, arith,
}
use bt_server.Timer.{Timer, Call, call_of, bt_timer_single, find, replace}
use bt_server.Timer
use bt_server.Timer.Order.{insert_sorted, Distinct, enqueue_lem}
use bt_server.Timer.Operations.{without, list_del_found, without-Distinct}

abbrev pub aged : Timer → Timer
aged t = record t { elapse = (t.elapse + 1) % 2 ^ 32 }

abbrev pub reset : Timer → Timer
reset t = record t { elapse = 0 }

-- The round on the sequence
pub sequence_early :
    (t : Timer) (list : List Timer)
    → leb t.interval (aged t).elapse ≡ false
    → Timer.expire t list ≡ (replace (aged t) list, none)
unfolding Timer.expire
sequence_early t list h = rw h refl

pub sequence_due :
    (t : Timer) (list : List Timer)
    → leb t.interval (aged t).elapse ≡ true
    → find t.address list ≡ some t
    → Distinct list
    → Timer.expire t list ≡ (
      if not (t.type == bt_timer_single)
          then insert_sorted (reset t) (without t.address list)
          else without t.address list,
      some (call_of t),
    )
unfolding Timer.expire
sequence_due t list h e d =
    rw
      (
        h,
        list_del_found t.address list e,
        enqueue_lem (reset t) (without t.address list) (without-Distinct t.address list d),
      )
      refl

pub length-without :
    (p : ℕ) (list : List Timer) {t : Timer}
    → find p list ≡ some t
    → length (without p list) + 1 ≡ length list
unfolding find
length-without p [] h = absurd (cc)
length-without p (u ∷ rest) h = elim (Bool-cases (u.address == p)) [
  | inl e ↦ rw e (omega arith)
  | inr e ↦ rw e (omega (arith, length-without p rest (rw e at h)))
]

pub length-insert_sorted :
    (t : Timer) (list : List Timer) → length (insert_sorted t list) ≡ length list + 1
length-insert_sorted t [] = refl
length-insert_sorted t (u ∷ rest) = elim (Bool-cases (ltb t.interval u.interval)) [
  | inl e ↦ rw e (omega arith)
  | inr e ↦ rw e (omega (arith, length-insert_sorted t rest))
]

pub length-replace : (t : Timer) (list : List Timer) → length (replace t list) ≡ length list
unfolding replace
length-replace t [] = refl
length-replace t (u ∷ rest) = elim (Bool-cases (u.address == t.address)) [
  | inl e ↦ rw e refl
  | inr e ↦ rw (e, length-replace t rest) refl
]
