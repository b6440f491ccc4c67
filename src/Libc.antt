-- ===== src/Libc.antt =====
-- The C library calls that the parsers make on byte buffers. A buffer is the list of the bytes
-- from a pointer to the end of its object, so a read past the end is an outcome of its own.
pub mod Strtol
pub mod Memory
use Prim.Native.Char.{code}
use Prim.Native.String.{String}
use bt_server.Common.{ℕ, Bool, List, [], ◌∷◌, ◌==◌, if◌then◌else◌}

abbrev pub Bytes : Type 0
Bytes = List ℕ

-- The bytes of a string literal, without its NUL.
abbrev pub codes : String → Bytes
codes String.[] = []
codes (String.◌∷◌ c s) = code c ∷ codes s

-- `strchr` stops at the byte, at the terminating NUL, or runs past the object.
pub data Search : Type 0 where
  found : Bytes → Bytes → Search
  missing : Search
  overrun : Search

abbrev pub behind : ℕ → Search → Search
behind b (found before after) = found (b ∷ before) after
behind b missing = missing
behind b overrun = overrun

-- `found before after`: the bytes before the match and those behind it.
unfoldable pub strchr : ℕ → Bytes → Search
strchr c [] = overrun
strchr c (b ∷ bs) =
    if b == c then found [] bs else if b == 0 then missing else behind b (strchr c bs)

-- The bytes of a C string: those before its NUL.
unfoldable pub c_str : Bytes → Bytes
c_str [] = []
c_str (b ∷ bs) = if b == 0 then [] else b ∷ c_str bs
