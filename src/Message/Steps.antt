-- ===== src/Message/Steps.antt =====
-- Steps of src/peer_message.c: they change the process, and may run into undefined behaviour.
use bt_server.Common.{ℕ, Option, none, some, if◌then◌else◌}
use bt_server.Libc.{Bytes}
use bt_server.Libc.Memory.{write, read}
use bt_server.Bcode.{BString, Process}
use bt_server.Bcode.Objects.{malloc, b_string_alloc_reserved}

pub data Step (A : Type 0) : Type 0 where
  ok : A → Process → Step A
  fault : Step A

abbrev pub M : Type 0 → Type 0
M A = Process → Step A

abbrev pub and_then : {A B : Type 0} → Step A → (A → M B) → Step B
and_then (ok a s) k = k a s
and_then fault k = fault

infixl 5 ◌>>=◌
abbrev pub ◌>>=◌ : {A B : Type 0} → M A → (A → M B) → M B
m >>= k = λ s. and_then (m s) k

abbrev pub pure : {A : Type 0} → A → M A
pure = ok

abbrev pub or_fault : {A : Type 0} → Option A → M A
or_fault none s = fault
or_fault (some a) s = ok a s

-- A block of `n` bytes or more, with whatever it holds. No caller checks for NULL before it writes.
unfoldable pub new_block : ℕ → M Bytes
unfolding malloc
new_block n s = if (malloc n s).0 then ok (s.content s.calls n) (malloc n s).1 else fault

-- b_string_alloc_reserved, whose result no caller checks before it is used.
unfoldable pub new_string : Bytes → ℕ → ℕ → M BString
new_string buf len reserved s =
    or_fault (b_string_alloc_reserved buf len reserved s).0
      (b_string_alloc_reserved buf len reserved s).1

unfoldable pub memcpy_to : ℕ → Bytes → Bytes → M Bytes
memcpy_to off bs block = or_fault (write off bs block)

unfoldable pub bytes_at : ℕ → Bytes → M Bytes
bytes_at n block = or_fault (read n block)

-- The block that `head` points to.
unfoldable pub block_of : BString → M Bytes
block_of t = or_fault t.head

abbrev pub modify : (Process → Process) → M (Unit {0})
modify f s = ok tt (f s)
