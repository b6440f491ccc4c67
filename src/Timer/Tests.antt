-- ===== src/Timer/Tests.antt =====
-- Runs of the handler, and the theorems on timers at work.
use bt_server.Common.{ℕ, ◌+◌, ◌≡◌, refl, some, List, [], ◌∷◌, arith}
use bt_server.Timer.{
  Timer, TimerList, done, spin, zero_value, call_of, find, bt_timer_func, bt_timer_add,
  bt_timer_del, visit, first_entry, next_entry, expire, replace, list_del, enqueue,
}
use bt_server.Timer.Reach.{IsSound, here, next, add, tick, Reach-IsSound}
use bt_server.Timer.Operations.{IsQueue, fresh_timer, with_timer, bt_timer_add-del}
use bt_server.Timer.Tick.{seconds, all_calls, bt_timer_func-seconds}
use bt_server.Timer.Run.{run, EndsWith, all_later, count, firings, run_periodic}
use bt_server.Timer.Storm.{restart_at, bt_timer_func_storm, bt_timer_func_drift}

abbrev timer : ℕ → ℕ → ℕ → ℕ → Timer
timer address type interval elapse = record {
  address = address;
  timer_id = address;
  callback = 7;
  arg = 1;
  type = type;
  interval = interval;
  elapse = elapse;
}

-- A repeating timer of two seconds, a single one of three that is due, a repeating one of five.
abbrev three_timers : List Timer
three_timers = timer 0 1 2 0 ∷ timer 1 0 3 2 ∷ timer 2 1 5 1 ∷ []

abbrev state : TimerList
state = record {
  list = three_timers;
  value = zero_value;
  old_sigfunc = 4;
  new_sigfunc = 5;
  num = 3;
  handler = 5;
  itimer = zero_value;
  blocks = 0 ∷ 1 ∷ 2 ∷ [];
}

-- The repeating timers.
abbrev two_timers : List Timer
two_timers = timer 0 1 2 0 ∷ timer 2 1 5 1 ∷ []

state-IsQueue : IsQueue state
state-IsQueue = record {
  sorted = ((omega arith, (omega arith, tt)), ((omega arith, tt), (tt, tt)));
  distinct = (
    ((λ q. absurd (omega arith)), ((λ q. absurd (omega arith)), tt)),
    (((λ q. absurd (omega arith)), tt), (tt, tt)),
  );
}

bt_timer_func_run :
    bt_timer_func 4 three_timers
    ≡ done (timer 0 1 2 1 ∷ timer 2 1 5 2 ∷ []) (call_of (timer 1 0 3 2) ∷ [])
unfolding bt_timer_func visit first_entry next_entry find expire replace list_del
bt_timer_func_run = refl

bt_timer_add-del_example :
    let t = fresh_timer 3 3 9 2 3 1 in
    (bt_timer_add (some 3) 9 2 3 1 state ≡ some (with_timer state t, t))
    × IsQueue (with_timer state t)
    × (bt_timer_del 3 (with_timer state t) ≡ some (record state { num = 4 }))
bt_timer_add-del_example =
    bt_timer_add-del state 3 9 2 3 1 state-IsQueue (
      (λ q. absurd (omega arith)),
      ((λ q. absurd (omega arith)), ((λ q. absurd (omega arith)), tt)),
    )

bt_timer_func-seconds_example :
    bt_timer_func 4 three_timers ≡ done (seconds three_timers) (all_calls three_timers)
bt_timer_func-seconds_example = bt_timer_func-seconds 4 three_timers (omega arith) (
  (
    (((λ q. absurd (omega arith)), tt), (omega arith, tt)),
    ((((λ q. absurd (omega arith)), tt), (omega arith, tt)), tt),
  ),
  (((((λ q. absurd (omega arith)), tt), (omega arith, tt)), tt), (tt, tt)),
)

run_periodic_example :
    EndsWith
      (all_later 100 two_timers)
      (λ cs. count 2 cs ≡ firings 100 2 two_timers)
      (run 100 3 two_timers)
run_periodic_example =
    run_periodic 100 3 2 two_timers (omega arith)
      (((((λ q. absurd (omega arith)), tt), (omega arith, tt)), tt), (tt, tt))
      ((refl, omega arith, omega arith), ((refl, omega arith, omega arith), tt))

bt_timer_func_storm_example : bt_timer_func 1000 (timer 0 1 1 0 ∷ timer 1 1 1 0 ∷ []) ≡ spin
bt_timer_func_storm_example =
    bt_timer_func_storm 1000 (timer 0 1 1 0) (timer 1 1 1 0)
      (record {
        nodes = λ q. absurd (omega arith);
        same = refl;
        a_repeats = refl;
        b_repeats = refl;
      })
      (omega arith) refl refl

bt_timer_func_drift_example :
    bt_timer_func (5 + 0) (timer 0 1 3 2 ∷ timer 1 1 3 2 ∷ [])
    ≡ done
        (restart_at 1 (timer 0 1 3 2) ∷ restart_at 1 (timer 1 1 3 2) ∷ [])
        (call_of (timer 0 1 3 2) ∷ call_of (timer 1 1 3 2) ∷ [])
bt_timer_func_drift_example =
    bt_timer_func_drift 0 (timer 0 1 3 2) (timer 1 1 3 2)
      (record {
        nodes = λ q. absurd (omega arith);
        same = refl;
        a_repeats = refl;
        b_repeats = refl;
      })
      (omega arith) refl refl

-- An empty ring, as bt_timer_init leaves it.
abbrev empty_state : TimerList
empty_state = record state { list = []; num = 0; blocks = [] }

empty-IsSound : IsSound empty_state
empty-IsSound = record { ring = record { sorted = tt; distinct = tt; nodes = tt }; blocks = tt }

abbrev one_state : TimerList
one_state = with_timer empty_state (fresh_timer 8 0 9 2 3 1)

one_added : bt_timer_add (some 8) 9 2 3 1 empty_state ≡ some (one_state, fresh_timer 8 0 9 2 3 1)
unfolding bt_timer_add enqueue
one_added = refl

one_second :
    bt_timer_func 2 one_state.list ≡ done (record (fresh_timer 8 0 9 2 3 1) { elapse = 1 } ∷ []) []
unfolding bt_timer_func visit first_entry next_entry find expire replace list_del
one_second = refl

Reach-IsSound_example :
    IsSound (record one_state { list = record (fresh_timer 8 0 9 2 3 1) { elapse = 1 } ∷ [] })
Reach-IsSound_example =
    Reach-IsSound empty-IsSound (next (next here (add 8 9 2 3 1 tt one_added)) (tick 2 one_second))
