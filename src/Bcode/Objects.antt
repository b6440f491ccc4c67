-- ===== src/Bcode/Objects.antt =====
-- src/b_parse.c: allocation, accessors and release of strings and integers. The sizes are those of
-- a 64-bit target.
use bt_server.Common.{ℕ, ◌+◌, ◌-◌, Bool, true, false, Option, none, some, if◌then◌else◌}
use bt_server.Libc.{Bytes}
use bt_server.Bcode.{BString, BInt, Process}

abbrev pub enomem : ℕ
enomem = 12

abbrev pub sizeof_b_string : ℕ
sizeof_b_string = 32

abbrev pub sizeof_b_int : ℕ
sizeof_b_int = 16

-- `malloc(size)`: whether a block is returned, and the process after it.
unfoldable pub malloc : ℕ → Process → Bool × Process
malloc size s =
    if s.grant s.calls size
    then (true, record s { calls = s.calls + 1; live = s.live + 1 })
    else (false, record s { calls = s.calls + 1; errno = enomem })

-- `free` of a live block
unfoldable pub free : Process → Process
free s = record s { live = s.live - 1 }

-- The allocation of an object that starts out as `a`.
unfoldable pub alloc : {A : Type 0} → ℕ → A → Process → Option A × Process
unfolding malloc
alloc size a s = let (got, s') = malloc size s in (if got then some a else none, s')

abbrev pub empty_string : BString
empty_string = record { head = none; off = 0; len = 0 }

unfoldable pub b_string_alloc : Process → Option BString × Process
unfolding alloc
b_string_alloc = alloc sizeof_b_string empty_string

-- `buf` is the whole block and `data` points `reserved` bytes into it
unfoldable pub b_string_alloc_reserved : Bytes → ℕ → ℕ → Process → Option BString × Process
unfolding alloc
b_string_alloc_reserved buf len reserved =
    alloc sizeof_b_string (record { head = some buf; off = reserved; len = len })

unfoldable pub b_string_free : Option BString → Process → Process
unfolding free
b_string_free none s = s
b_string_free (some p) s = free (elim p.head [ none ↦ s | some _ ↦ free s ])

-- b_string_set, for a pointer into the string's block
unfoldable pub b_string_set : BString → ℕ → BString
b_string_set p off = record p { off = off }

unfoldable pub b_string_get : BString → ℕ
b_string_get p = p.off

unfoldable pub b_string_get_length : BString → ℕ
b_string_get_length p = p.len

unfoldable pub b_string_set_head : BString → Option Bytes → BString
b_string_set_head p head = record p { head = head }

unfoldable pub b_string_get_head : BString → Option Bytes
b_string_get_head p = p.head

unfoldable pub b_string_set_length : BString → ℕ → BString
b_string_set_length p len = record p { len = len }

unfoldable pub b_int_alloc : Process → Option BInt × Process
unfolding alloc
b_int_alloc = alloc sizeof_b_int (record { val = 0 })

unfoldable pub b_int_free : Option BInt → Process → Process
unfolding free
b_int_free none s = s
b_int_free (some p) s = free s

unfoldable pub b_int_set : BInt → ℕ → BInt
b_int_set p val = record p { val = val }

unfoldable pub b_int_get : BInt → ℕ
b_int_get p = p.val
