-- ===== src/Timer/Pointers/Course.antt =====
-- Courses of calls of src/bt_timer.c and runs of its handler, on the sequence and in memory.
pub mod Outside
pub mod Performed
pub mod Moves
pub mod Refine
use bt_server.Common.{
  ℕ, zero, suc, ◌+◌, ◌≡◌, ◌≢◌, Bool, true, false, Option, none, some, List, [], ◌∷◌, ◌++◌, ◌≤◌,
  length,
}
use bt_server.Links.{poison1}
use bt_server.Timer.{Timer, TimerList, Call, done, spin}
use bt_server.Timer
use bt_server.Timer.Blocks.{Held, Fresh}
use bt_server.Timer.Reach.{IsSound}
use bt_server.Timer.Pointers.{
  Memory, Run, ret, undefined, endless, ◌>>=◌, lift, bt_timer_func, bt_timer_add, bt_timer_del,
  bt_timer_update,
}
use bt_server.Timer.Pointers.Shape.{Shows, Poisoned}

-- A call, where malloc returns `address`, or SIGALRM.
pub data Event : Type 0 where
  adding : (address func arg interval type : ℕ) → Event
  deleting : (p : ℕ) → Event
  updating : (p : ℕ) → Event
  alarm : Event

abbrev quiet : {S : Type 0} → S → Run (S × List Call)
quiet s = ret (s, [])

-- The event on the sequence; the handler has the fuel `f`.
unfoldable pub perform : ℕ → Event → TimerList → Run (TimerList × List Call)
unfolding Timer.bt_timer_add Timer.bt_timer_del Timer.bt_timer_update Timer.bt_timer_func
perform f (adding address func arg interval type) s =
    lift (Timer.bt_timer_add (some address) func arg interval type s) >>= λ r. quiet r.0
perform f (deleting p) s = lift (Timer.bt_timer_del p s) >>= quiet
perform f (updating p) s = lift (Timer.bt_timer_update p s) >>= quiet
perform f alarm s = elim (Timer.bt_timer_func f s.list) [
  | done list calls ↦ ret (record s { list = list }, calls)
  | spin ↦ endless
]

-- The event in memory; get_position has the fuel `g`.
unfoldable pub perform_at : ℕ → ℕ → Event → Memory → Run (Memory × List Call)
unfolding bt_timer_add bt_timer_del bt_timer_update bt_timer_func
perform_at f g (adding address func arg interval type) m =
    bt_timer_add g (some address) func arg interval type m >>= quiet
perform_at f g (deleting p) m = bt_timer_del p m >>= quiet
perform_at f g (updating p) m = bt_timer_update g p m >>= quiet
perform_at f g alarm m = bt_timer_func f g m

-- The calls of callbacks are collected.
abbrev pub course :
    {S : Type 0} → (Event → S → Run (S × List Call)) → List Event → S → Run (S × List Call)
course step [] s = ret (s, [])
course step (e ∷ es) s = step e s >>= λ r. course step es r.0 >>= λ q. ret (q.0, r.1 ++ q.1)

-- A memory with the ring at `head` that holds the timers of a state. The blocks of the state are just
-- those that are live; that of the head is among them. A block that is not in the ring was taken out of
-- it by list_del, and nothing is where its links point to.
pub record Matches (head : ℕ) (s : TimerList) (m : Memory) : Type 0 where
  pub place : m.head ≡ head
  pub sound : IsSound s
  pub shows : Shows m s.list
  pub num : m.num ≡ s.num
  pub held : (p : ℕ) → m.links.live p ≡ true → Held s.blocks p
  pub live : (p : ℕ) → Held s.blocks p → m.links.live p ≡ true
  pub cut : Poisoned m s.list
  pub bare : m.links.live poison1 ≡ false

-- Both come back, with the same calls and matching states, of no more than `size` timers; or both run
-- out of fuel; or both are undefined.
pub data Agree (head size : ℕ)
    : Run (TimerList × List Call) → Run (Memory × List Call) → Type 0 where
  both_end :
      {s : TimerList} {m : Memory} {calls : List Call}
      → Matches head s m
      → length s.list ≤ size
      → Agree head size (ret (s, calls)) (ret (m, calls))
  both_run_on : Agree head size endless endless
  both_broken : Agree head size undefined undefined

-- malloc returns no block that is allocated and not LIST_POISON1; the head of the ring is not given
-- out as a timer.
abbrev pub Allowed : ℕ → Event → TimerList → Type 0
Allowed head (adding address func arg interval type) s =
    Fresh address s.blocks × (address ≢ poison1)
Allowed head (deleting p) s = p ≢ head
Allowed head (updating p) s = p ≢ head
Allowed head alarm s = Unit

abbrev pub After : {S : Type 0} → Run (S × List Call) → (S → Type 0) → Type 0
After (ret (s, calls)) P = P s
After undefined P = Unit
After endless P = Unit

abbrev pub AllAllowed : ℕ → ℕ → List Event → TimerList → Type 0
AllAllowed head f [] s = Unit
AllAllowed head f (e ∷ es) s = Allowed head e s × After (perform f e s) (AllAllowed head f es)
