-- ===== src/Timer/Pointers/Course/Refine.antt =====
-- Courses of calls of src/bt_timer.c and runs of its handler in memory refine those on the sequence.
use bt_server.Common.{ℕ, ◌+◌, ◌<◌, ◌≤◌, List, [], ◌∷◌, ◌++◌, length, arith}
use bt_server.Timer.{TimerList, Call}
use bt_server.Timer.Pointers.{Memory, Run, ret, ◌>>=◌}
use bt_server.Timer.Pointers.Course.{
  Event, perform, perform_at, course, Matches, Agree, both_end, both_run_on, both_broken, After,
  AllAllowed,
}
use bt_server.Timer.Pointers.Course.Moves.{perform-Agree}

collected :
    {head size size' : ℕ} {r : Run (TimerList × List Call)} {q : Run (Memory × List Call)}
    (calls : List Call)
    → size ≤ size'
    → Agree head size r q
    → Agree head size' (r >>= λ x. ret (x.0, calls ++ x.1)) (q >>= λ x. ret (x.0, calls ++ x.1))
collected calls l (both_end h z) = both_end h (omega arith)
collected calls l both_run_on = both_run_on
collected calls l both_broken = both_broken

carried_on :
    (head f g total : ℕ) (es : List Event) {size : ℕ} {r : Run (TimerList × List Call)}
    {q : Run (Memory × List Call)}
    → ((s : TimerList) (m : Memory)
        → Matches head s m
        → AllAllowed head f es s
        → length s.list + length es < g
        → Agree head
            (length s.list + length es)
            (course (perform f) es s)
            (course (perform_at f g) es m))
    → size + length es ≤ total
    → total < g
    → Agree head size r q
    → After r (AllAllowed head f es)
    → Agree head total
        (r >>= λ x. course (perform f) es x.0 >>= λ y. ret (y.0, x.1 ++ y.1))
        (q >>= λ x. course (perform_at f g) es x.0 >>= λ y. ret (y.0, x.1 ++ y.1))
carried_on head f g total es later k l (both_end {s} {m} {calls} h z) a =
    collected calls (omega arith) (later s m h a (omega arith))
carried_on head f g total es later k l both_run_on a = both_run_on
carried_on head f g total es later k l both_broken a = both_broken

-- From a memory that matches a sound state, every course of calls of bt_timer_add, where malloc
-- returns no block that is allocated and not LIST_POISON1, of bt_timer_del and bt_timer_update for
-- anything but the head of the ring, and of runs of the SIGALRM handler, does in memory, on pointers,
-- what it does on the sequence of the timers: both end, with the same calls of callbacks in the same
-- order and with a memory that matches the sound state that is left; or both run on in the handler for
-- the fuel `f`; or both are undefined. So deleting or updating what is not in the ring, such as a
-- single timer that was due, is undefined in memory too. Fuel `g` above the number of timers that
-- there can be is enough for each get_position.
pub course-Agree :
    (head f g : ℕ) (es : List Event) (s : TimerList) (m : Memory)
    → Matches head s m
    → AllAllowed head f es s
    → length s.list + length es < g
    → Agree head
        (length s.list + length es)
        (course (perform f) es s)
        (course (perform_at f g) es m)
course-Agree head f g [] s m h a l = both_end h (omega arith)
course-Agree head f g (e ∷ es) s m h (fresh, a) l =
    carried_on head f g (length s.list + length (e ∷ es)) es (course-Agree head f g es)
      (omega arith) l (perform-Agree head f g e s m h fresh (omega arith)) a
