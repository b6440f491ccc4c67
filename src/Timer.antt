-- ===== src/Timer.antt =====
-- src/bt_timer.c and include/bt_timer.h: timers in a ring that is kept in the order of their
-- intervals, driven once a second by SIGALRM.
pub mod Order
pub mod Operations
pub mod Ring
pub mod Blocks
pub mod Reach
pub mod Table
pub mod Tick
pub mod Run
pub mod Storm
pub mod Pointers
mod Tests
use bt_server.Common.{
  ℕ, zero, suc, ◌+◌, ◌-◌, ◌%◌, ◌^◌, Bool, Option, none, some, List, [], ◌∷◌, ltb, leb, ◌==◌, not,
  false, if◌then◌else◌,
}

abbrev pub bt_timer_single : ℕ
bt_timer_single = 0

abbrev bt_timer_repeat : ℕ
bt_timer_repeat = 1

-- struct bt_timer: `address` is the node itself, by which the callers and the ring name it;
-- `callback` and `arg` are the function and its `data`. `type` holds any int.
pub record Timer : Type 0 where
  pub address : ℕ
  pub timer_id : ℕ
  pub callback : ℕ
  pub arg : ℕ
  pub type : ℕ
  pub interval : ℕ
  pub elapse : ℕ

-- struct itimerval, in seconds and microseconds
pub record TimerValue : Type 0 where
  pub value_sec : ℕ
  pub value_usec : ℕ
  pub interval_sec : ℕ
  pub interval_usec : ℕ

abbrev pub zero_value : TimerValue
zero_value = record { value_sec = 0; value_usec = 0; interval_sec = 0; interval_usec = 0 }

-- struct bt_timer_list: `list` is the ring behind its head. A handler is a number, 0 for NULL. The
-- process's own are the handler in force, ITIMER_REAL and the blocks that timers occupy.
pub record TimerList : Type 0 where
  pub list : List Timer
  pub value : TimerValue
  pub old_sigfunc : ℕ
  pub new_sigfunc : ℕ
  pub num : ℕ
  pub handler : ℕ
  pub itimer : TimerValue
  pub blocks : List ℕ

-- One call `vec->callback(vec->timer_id, vec->data)`.
pub record Call : Type 0 where
  pub callback : ℕ
  pub timer_id : ℕ
  pub arg : ℕ

-- What a pass of the handler leaves: the ring and the calls made, oldest first; `spin` says that
-- the fuel ran out.
pub data Pass : Type 0 where
  done : List Timer → List Call → Pass
  spin : Pass

-- The first entry with a larger interval; `none` is the head of the ring.
unfoldable pub get_position : ℕ → List Timer → Option ℕ
get_position interval [] = none
get_position interval (vec ∷ rest) =
    if ltb interval vec.interval then some vec.address else get_position interval rest

-- list_add_tail with an entry for its head inserts before that entry.
unfoldable pub insert_before : Timer → ℕ → List Timer → List Timer
insert_before t p [] = []
insert_before t p (vec ∷ rest) =
    if vec.address == p then t ∷ vec ∷ rest else vec ∷ insert_before t p rest

unfoldable pub add_last : Timer → List Timer → List Timer
add_last t [] = t ∷ []
add_last t (vec ∷ rest) = vec ∷ add_last t rest

unfoldable pub list_add_tail : Timer → Option ℕ → List Timer → List Timer
unfolding insert_before add_last
list_add_tail t none list = add_last t list
list_add_tail t (some p) list = insert_before t p list

-- list_del of the entry at an address; `none` where it is not in the ring, so that its links are
-- poison and the call writes through them.
unfoldable pub list_del : ℕ → List Timer → Option (List Timer)
list_del p [] = none
list_del p (vec ∷ rest) =
    let deeper = list_del p rest in
    if vec.address == p
    then some rest
    else elim deeper [ none ↦ none | some rest' ↦ some (vec ∷ rest') ]

-- `list_add_tail(&t->head, get_position(t->interval, &timer_list.list))`
unfoldable pub enqueue : Timer → List Timer → List Timer
unfolding get_position list_add_tail
enqueue t list = list_add_tail t (get_position t.interval list) list

unfoldable pub find : ℕ → List Timer → Option Timer
find p [] = none
find p (vec ∷ rest) = if vec.address == p then some vec else find p rest

unfoldable pub replace : Timer → List Timer → List Timer
replace t [] = []
replace t (vec ∷ rest) = if vec.address == t.address then t ∷ rest else vec ∷ replace t rest

unfoldable pub first_entry : List Timer → Option ℕ
first_entry [] = none
first_entry (vec ∷ _) = some vec.address

-- list_next_entry; `none` is the head of the ring, also behind an entry that is not in it.
unfoldable pub next_entry : ℕ → List Timer → Option ℕ
unfolding first_entry
next_entry p [] = none
next_entry p (vec ∷ rest) = if vec.address == p then first_entry rest else next_entry p rest

abbrev pub call_of : Timer → Call
call_of t = record { callback = t.callback; timer_id = t.timer_id; arg = t.arg }

-- The body of the handler's loop for the entry `t`, and the call that it makes. `elapse` is an
-- unsigned int. The callback is taken to leave the timers alone.
unfoldable pub expire : Timer → List Timer → List Timer × Option Call
expire t list =
    let aged = record t { elapse = (t.elapse + 1) % 2 ^ 32 } in
    let reset = record t { elapse = 0 } in
    let rest : List Timer = elim (list_del t.address list) [ none ↦ list | some rest ↦ rest ] in
    if leb aged.interval aged.elapse
    then (if not (t.type == bt_timer_single) then enqueue reset rest else rest, some (call_of t))
    else (replace aged list, none)

abbrev pub logged : Option Call → Pass → Pass
logged c (done list calls) = done list (elim c [ none ↦ calls | some e ↦ e ∷ calls ])
logged c spin = spin

abbrev pub next_of : Option ℕ → List Timer → Option ℕ
next_of p list = elim p [ none ↦ none | some q ↦ next_entry q list ]

-- `list_for_each_entry_safe(vec, tmp, …)`: `pos` is the entry to visit and `n` the one that was
-- behind it when the visit began; both are read off the ring again for the next round.
unfoldable pub visit : ℕ → Option ℕ → Option ℕ → List Timer → Pass
visit zero pos n list = spin
visit (suc f) none n list = done list []
visit (suc f) (some p) n list =
    let step : List Timer × Option Call = elim (find p list) [
      | none ↦ (list, none)
      | some t ↦ expire t list
    ] in
    logged step.1 (visit f n (next_of n step.0) step.0)

unfoldable pub bt_timer_func : ℕ → List Timer → Pass
bt_timer_func f list = visit f (first_entry list) (next_of (first_entry list) list) list

-- SIG_ERR is the pointer -1.
abbrev sig_err : ℕ
sig_err = 2 ^ 64 - 1

-- `signal(SIGALRM, …)` returns the handler that was in force, or SIG_ERR. `handler_func` stands
-- for the address of bt_timer_func; the result says whether 0 was returned, or -1.
unfoldable pub bt_timer_init : Bool → Bool → ℕ → TimerList → TimerList × Bool
bt_timer_init signal_ok setitimer_ok handler_func s =
    let cleared = record s {
      list = [];
      value = zero_value;
      old_sigfunc = if signal_ok then s.handler else sig_err;
      new_sigfunc = 0;
      num = 0;
    } in
    let second : TimerValue = record {
      value_sec = 0;
      value_usec = 1;
      interval_sec = 1;
      interval_usec = 0;
    } in
    let armed = record cleared {
      new_sigfunc = handler_func;
      handler = handler_func;
      value = second;
      itimer = if setitimer_ok then second else s.itimer;
    } in
    if signal_ok then (armed, setitimer_ok) else (cleared, false)

-- `address` is what malloc returned; through NULL the memset is a fault.
unfoldable pub bt_timer_add : Option ℕ → ℕ → ℕ → ℕ → ℕ → TimerList → Option (TimerList × Timer)
bt_timer_add none func arg interval type s = none
bt_timer_add (some address) func arg interval type s =
    let t : Timer = record {
      address = address;
      timer_id = s.num;
      callback = func;
      arg = arg;
      type = type;
      interval = interval;
      elapse = 0;
    } in
    some (record s { list = enqueue t s.list; num = s.num + 1; blocks = address ∷ s.blocks }, t)

unfoldable pub free_block : ℕ → List ℕ → List ℕ
free_block p [] = []
free_block p (q ∷ qs) = if q == p then qs else q ∷ free_block p qs

unfoldable pub bt_timer_del : ℕ → TimerList → Option TimerList
bt_timer_del p s = elim (list_del p s.list) [
  | none ↦ none
  | some rest ↦ some (record s { list = rest; blocks = free_block p s.blocks })
]

unfoldable pub bt_timer_update : ℕ → TimerList → Option TimerList
bt_timer_update p s = elim (find p s.list) [
  | none ↦ none
  | some t ↦ elim (list_del p s.list) [
    | none ↦ none
    | some rest ↦ some (record s { list = enqueue (record t { elapse = 0 }) rest })
  ]
]

-- bt_timer_finit's loop over the ring
unfoldable pub del_all : List Timer → TimerList → Option TimerList
del_all [] s = some s
del_all (vec ∷ rest) s = elim (bt_timer_del vec.address s) [
  | none ↦ none
  | some s' ↦ del_all rest s'
]

-- The memset clears the head of the ring too; on sequences that is an empty ring, and Timer.Pointers has
-- the links that are NULL until bt_timer_init.
unfoldable pub bt_timer_finit : TimerList → Option TimerList
bt_timer_finit s = elim (del_all s.list (record s { handler = s.old_sigfunc })) [
  | none ↦ none
  | some s' ↦
      some (record s' { list = []; value = zero_value; old_sigfunc = 0; new_sigfunc = 0; num = 0 })
]
