-- ===== src/Links.antt =====
-- What the operations of include/list.h that the program calls do to pointers: writes to the links of
-- nodes.
pub mod Ring
pub mod Leads
pub mod Effects
use bt_server.Common.{ℕ, Bool, Option, none, some, List, [], ◌∷◌, ◌++◌, ◌==◌, if◌then◌else◌, ◌>>=◌}

-- The links of the nodes by address, and which of the addresses are those of nodes in memory. A
-- read or a write at another address is undefined behaviour, `none`.
pub record Store : Type 0 where
  pub next : ℕ → ℕ
  pub prev : ℕ → ℕ
  pub live : ℕ → Bool

abbrev pub poison1 : ℕ
poison1 = 0xAABBAABB

abbrev pub poison2 : ℕ
poison2 = 0xBBAABBAA

abbrev pub set : ℕ → ℕ → (ℕ → ℕ) → ℕ → ℕ
set p v f q = if p == q then v else f q

-- The assignments `p->next = v` and `p->prev = v`
pub data Write : Type 0 where
  next_to : ℕ → ℕ → Write
  prev_to : ℕ → ℕ → Write

unfoldable pub write : Write → Store → Option Store
write (next_to p v) s = if s.live p then some (record s { next = set p v s.next }) else none
write (prev_to p v) s = if s.live p then some (record s { prev = set p v s.prev }) else none

unfoldable pub write_all : List Write → Store → Option Store
unfolding write
write_all [] s = some s
write_all (w ∷ ws) s = write w s >>= write_all ws

-- `p->next` and `p->prev`, read
unfoldable pub next_at : ℕ → Store → Option ℕ
next_at p s = if s.live p then some (s.next p) else none

unfoldable pub prev_at : ℕ → Store → Option ℕ
prev_at p s = if s.live p then some (s.prev p) else none

abbrev pub init_list_head : ℕ → List Write
init_list_head list = next_to list list ∷ prev_to list list ∷ []

-- The body of __list_add
abbrev pub do_list_add : ℕ → ℕ → ℕ → List Write
do_list_add new prev next =
    prev_to next new ∷ next_to new next ∷ prev_to new prev ∷ next_to prev new ∷ []

unfoldable pub list_add_tail : ℕ → ℕ → Store → Option Store
unfolding prev_at write_all
list_add_tail new head s = do prev ← prev_at head s; write_all (do_list_add new prev head) s

-- The body of __list_del
abbrev do_list_del : ℕ → ℕ → List Write
do_list_del prev next = prev_to next prev ∷ next_to prev next ∷ []

-- All that list_del writes
abbrev pub del_writes : ℕ → ℕ → ℕ → List Write
del_writes entry prev next =
    do_list_del prev next ++ (next_to entry poison1 ∷ prev_to entry poison2 ∷ [])

unfoldable pub list_del : ℕ → Store → Option Store
unfolding prev_at next_at write_all
list_del entry s = do
  prev ← prev_at entry s
  next ← next_at entry s
  write_all (del_writes entry prev next) s
