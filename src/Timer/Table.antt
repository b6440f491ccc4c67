-- ===== src/Timer/Table.antt =====
-- What src/bt_timer.c promises its callers: a table of timers by their addresses, without any order.
pub mod Find
pub mod Refine
use bt_server.Common.{
  ℕ, ◌+◌, ◌≡◌, Option, none, some, List, [], ◌∷◌, ◌==◌, if◌then◌else◌, ◌>>=◌, mapped,
}
use bt_server.Timer.{Timer, TimerList, find, bt_timer_add, bt_timer_del, bt_timer_update}
use bt_server.Timer.Operations.{fresh_timer}

-- What a client does; `look` reads the timer at an address.
pub data Op : Type 0 where
  add : ℕ → ℕ → ℕ → ℕ → ℕ → Op
  del : ℕ → Op
  update : ℕ → Op
  look : ℕ → Op

-- What it sees: the timer that a call of bt_timer_add returns, or the one at an address.
pub data Answer : Type 0 where
  added : Timer → Answer
  seen : Option Timer → Answer

-- The answers of the program; `none` is undefined behaviour.
unfoldable pub run : TimerList → List Op → Option (List Answer)
run s [] = some []
run s (add address func arg interval type ∷ ops) =
    bt_timer_add (some address) func arg interval type s >>= λ r.
    mapped (λ xs. added r.1 ∷ xs) (run r.0 ops)
run s (del p ∷ ops) = bt_timer_del p s >>= λ s'. run s' ops
run s (update p ∷ ops) = bt_timer_update p s >>= λ s'. run s' ops
run s (look p ∷ ops) = mapped (λ xs. seen (find p s.list) ∷ xs) (run s ops)

-- The table, and the next id.
pub record Table : Type 0 where
  pub timers : ℕ → Option Timer
  pub num : ℕ

abbrev pub set : ℕ → Option Timer → Table → Table
set p o table = record table { timers = λ q. if p == q then o else table.timers q }

-- A timer that starts its period again.
abbrev pub restarted : Option Timer → Option Timer
restarted none = none
restarted (some t) = some (record t { elapse = 0 })

-- The answers that a table gives.
unfoldable pub answers : Table → List Op → Option (List Answer)
answers table [] = some []
answers table (add address func arg interval type ∷ ops) =
    let t = fresh_timer address table.num func arg interval type in
    mapped (λ xs. added t ∷ xs)
      (answers (record (set address (some t) table) { num = table.num + 1 }) ops)
answers table (del p ∷ ops) =
    let rest = answers (set p none table) ops in
    elim (table.timers p) [ none ↦ none | some _ ↦ rest ]
answers table (update p ∷ ops) =
    let rest = answers (set p (restarted (table.timers p)) table) ops in
    elim (table.timers p) [ none ↦ none | some _ ↦ rest ]
answers table (look p ∷ ops) = mapped (λ xs. seen (table.timers p) ∷ xs) (answers table ops)

-- malloc gives addresses that no timer of the table is at.
abbrev pub Fresh : Table → List Op → Type 0
Fresh table [] = Unit
Fresh table (add address func arg interval type ∷ ops) =
    (table.timers address ≡ none)
    × Fresh
        (record (set address (some (fresh_timer address table.num func arg interval type)) table) {
          num = table.num + 1;
        })
        ops
Fresh table (del p ∷ ops) = Fresh (set p none table) ops
Fresh table (update p ∷ ops) = Fresh (set p (restarted (table.timers p)) table) ops
Fresh table (look p ∷ ops) = Fresh table ops
