-- ===== src/Timer/Storm.antt =====
-- Two repeating timers with one interval in the ring of src/bt_timer.c: the handler moves the first
-- behind the second, and so meets it again in the same run.
use bt_server.Common.{
  ℕ, zero, suc, ◌+◌, ◌%◌, ◌^◌, ◌≤◌, ◌≡◌, ◌≢◌, refl, sym, ◌∙◌, ap, true, false, Option, none, some,
  List, [], ◌∷◌, ◌++◌, arith, ltb, le→leb, ◌==◌,
}
use bt_server.Timer.{
  Timer, done, spin, bt_timer_single, get_position, add_last, list_add_tail, enqueue, first_entry,
  call_of, expire, logged, next_of, visit, bt_timer_func,
}
use bt_server.Timer.Tick.{
  due, aged, find_here, list_del_here, visit_step, visit_done, next_entry_here, replace_here,
}
use bt_server.Timer.Order.{Absent}

-- Two repeating timers at different nodes, with one interval.
pub record IsPair (a b : Timer) : Type 0 where
  pub nodes : a.address ≢ b.address
  pub same : a.interval ≡ b.interval
  pub a_repeats : (a.type == bt_timer_single) ≡ false
  pub b_repeats : (b.type == bt_timer_single) ≡ false

abbrev restart : Timer → Timer
restart t = record t { elapse = 0 }

swap-IsPair : {a b : Timer} → IsPair a b → IsPair b (restart a)
swap-IsPair p = record {
  nodes = λ e. p.nodes (sym e);
  same = sym p.same;
  a_repeats = p.b_repeats;
  b_repeats = p.a_repeats;
}

-- A timer that is due goes behind the other one.
expire_first :
    (a b : Timer)
    → IsPair a b
    → due a ≡ true
    → expire a (a ∷ b ∷ []) ≡ (b ∷ restart a ∷ [], some (call_of a))
unfolding expire enqueue list_add_tail add_last get_position
expire_first a b p d =
    let behind : ltb a.interval b.interval ≡ false = ground arith in
    rw (d, list_del_here a (b ∷ []) [] tt) (rw (p.a_repeats, behind))

next_first : (a b : Timer) → next_of (some a.address) (a ∷ b ∷ []) ≡ some b.address
unfolding first_entry
next_first a b = next_entry_here a (b ∷ []) [] tt

next_last : (a b : Timer) → a.address ≢ b.address → next_of (some b.address) (a ∷ b ∷ []) ≡ none
unfolding first_entry
next_last a b ne = next_entry_here b [] (a ∷ []) (ne, tt)

-- A visit to a timer that is due, at the front of the pair.
visit-due :
    (f : ℕ) (n : Option ℕ) (a b : Timer)
    → IsPair a b
    → due a ≡ true
    → visit (suc f) (some a.address) n (a ∷ b ∷ [])
      ≡ logged (some (call_of a)) (visit f n (next_of n (b ∷ restart a ∷ [])) (b ∷ restart a ∷ []))
visit-due f n a b p d =
    visit_step f a.address n (a ∷ b ∷ []) (find_here a (b ∷ []) [] tt) (expire_first a b p d)

storm :
    (f : ℕ) (a b : Timer)
    → IsPair a b
    → a.interval ≤ 1
    → due a ≡ true
    → due b ≡ true
    → visit f (some a.address) (some b.address) (a ∷ b ∷ []) ≡ spin
unfolding visit
storm zero a b p i da db = refl
storm (suc f) a b p i da db =
    let again : due (restart a) ≡ true = le→leb a.interval 1 i in
    visit-due f (some b.address) a b p da
    ∙ rw (next_first b (restart a)) (
        ap (logged (some (call_of a)))
          (storm f b (restart a) (swap-IsPair p) (omega (arith, p.same)) db again))

-- Two repeating timers whose common interval is one second (or 0) hang the program: once both are
-- due the SIGALRM handler never returns. However much fuel it is given, it is still visiting.
pub bt_timer_func_storm :
    (f : ℕ) (a b : Timer)
    → IsPair a b
    → a.interval ≤ 1
    → due a ≡ true
    → due b ≡ true
    → bt_timer_func f (a ∷ b ∷ []) ≡ spin
unfolding bt_timer_func first_entry
bt_timer_func_storm f a b p i da db = rw (next_first a b) (storm f a b p i da db)

expire-aged :
    (t : Timer) (pre rest : List Timer)
    → Absent t.address pre
    → due t ≡ false
    → expire t (pre ++ t ∷ rest) ≡ (pre ++ aged t ∷ rest, none)
unfolding expire
expire-aged t pre rest a d = rw (d, replace_here t rest ((t.elapse + 1) % 2 ^ 32) pre a)

visit-aged :
    (f : ℕ) (n : Option ℕ) (t : Timer) (pre rest : List Timer)
    → Absent t.address pre
    → due t ≡ false
    → visit (suc f) (some t.address) n (pre ++ t ∷ rest)
      ≡ logged none (visit f n (next_of n (pre ++ aged t ∷ rest)) (pre ++ aged t ∷ rest))
visit-aged f n t pre rest a d =
    visit_step f t.address n (pre ++ t ∷ rest) (find_here t rest pre a) (expire-aged t pre rest a d)

abbrev pub restart_at : ℕ → Timer → Timer
restart_at e t = record t { elapse = e }

-- The second round over a pair that was due: each is a second old again.
second_round :
    (f : ℕ) (a b : Timer)
    → IsPair a b
    → 2 ≤ a.interval
    → visit (suc (suc (suc f))) (some a.address) (some b.address) (restart a ∷ restart b ∷ [])
      ≡ done (restart_at 1 a ∷ restart_at 1 b ∷ []) []
second_round f a b p i =
    let young : due (restart a) ≡ false = ground arith in
    let young' : due (restart b) ≡ false = ground (arith, p.same) in
    visit-aged (suc (suc f)) (some b.address) (restart a) [] (restart b ∷ []) tt young
    ∙ rw (next_last (restart_at 1 a) (restart b) p.nodes) (
        ap (logged none) (
          visit-aged (suc f) none (restart b) (restart_at 1 a ∷ []) [] (p.nodes, tt) young'
          ∙ ap (logged none) (visit_done f none (restart_at 1 a ∷ restart_at 1 b ∷ []))))

second_visit :
    (f : ℕ) (a b : Timer)
    → IsPair a b
    → 2 ≤ a.interval
    → due b ≡ true
    → visit (suc (suc (suc (suc f)))) (some b.address) (some a.address) (b ∷ restart a ∷ [])
      ≡ done (restart_at 1 a ∷ restart_at 1 b ∷ []) (call_of b ∷ [])
second_visit f a b p i db =
    visit-due (suc (suc (suc f))) (some a.address) b (restart a) (swap-IsPair p) db
    ∙ rw (next_first (restart a) (restart b))
        (ap (logged (some (call_of b))) (second_round f a b p i))

-- Two repeating timers with a common interval of at least two seconds, due in the same second, are
-- both called once, but the handler then visits each of them again: they restart a second old, so
-- the next period is one second short. Fuel 5 is enough for the run.
pub bt_timer_func_drift :
    (f : ℕ) (a b : Timer)
    → IsPair a b
    → 2 ≤ a.interval
    → due a ≡ true
    → due b ≡ true
    → bt_timer_func (5 + f) (a ∷ b ∷ [])
      ≡ done (restart_at 1 a ∷ restart_at 1 b ∷ []) (call_of a ∷ call_of b ∷ [])
unfolding bt_timer_func first_entry
bt_timer_func_drift f a b p i da db =
    let five : 5 + f ≡ suc (suc (suc (suc (suc f)))) = omega arith in
    rw (five, next_first a b)
      (visit-due (suc (suc (suc (suc f)))) (some b.address) a b p da
        ∙ rw (next_first b (restart a))
            (ap (logged (some (call_of a))) (second_visit f a b p i db)))
