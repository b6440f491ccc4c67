-- ===== src/Bcode/Print.antt =====
-- The print functions of src/b_parse.c, as the lines that they give to TRACE.
pub mod Report
pub mod Sized
use bt_server.Common.{
  ℕ, zero, suc, ◌+◌, ◌-◌, ◌^◌, Option, none, some, List, [], ◌∷◌, ◌++◌, ltb, if◌then◌else◌, drop,
  Bool, length, not, ◌&&◌, ◌==◌, ◌%◌, ℤ, pos, negsuc,
}
use bt_server.Libc.{Bytes, c_str, codes}
use bt_server.Trace.{fits}
use bt_server.Libc.Memory.{read}
use bt_server.Bcode.{BString, BInt, Value, BList, BDict, nil, cons, end, entry}
use bt_server.Bcode.Entries.{type_of, known_type, key_len}

-- `key_line i type key` is "[ (i) Key(type) ] key".
pub data Line : Type 0 where
  list_begin : Line
  list_end : Line
  dict_begin : Line
  dict_end : Line
  key_line : ℕ → ℕ → Bytes → Line
  string_line : Bytes → Line
  int_line : ℤ → Line
  type_error : Line

-- `%d` of an unsigned int
unfoldable pub signed : ℕ → ℤ
signed n = if ltb n (2 ^ 31) then pos n else negsuc (2 ^ 32 - 1 - n)

-- One after the other; `none` is undefined behaviour, such as a NULL argument.
abbrev pub before : {A : Type 0} → Option (List A) → Option (List A) → Option (List A)
before none ys = none
before (some xs) none = none
before (some xs) (some ys) = some (xs ++ ys)

abbrev pub line : Line → Option (List Line)
line l = some (l ∷ [])

-- Undefined unless the condition holds.
abbrev pub within : {A : Type 0} → Bool → Option A → Option A
within t x = if t then x else none

abbrev pub list_lines : Option (List Line) → Option (List Line)
list_lines entries = before (line list_begin) (before entries (line list_end))

abbrev pub dict_lines : Option (List Line) → Option (List Line)
dict_lines entries = before (line dict_begin) (before entries (line dict_end))

-- TRACE of "%s\n" with the string
abbrev pub string_fits : Bytes → Bool
string_fits bs = fits (codes "b_string_print") 111 (bs ++ 10 ∷ [])

unfoldable pub b_string_print : BString → Option (List Line)
unfolding c_str fits
b_string_print t = elim t.head [
  | none ↦ none
  | some block ↦
      let text = c_str (drop t.off block) in within (string_fits text) (line (string_line text))
]

unfoldable pub b_int_print : BInt → Option (List Line)
unfolding signed
b_int_print n = line (int_line (signed n.val))

unfoldable mutual
  unfolding b_string_print b_int_print type_of known_type

  pub l_entry_print : Value → Option (List Line)
  l_entry_print (Value.list xs) = list_lines (entries_print xs)
  l_entry_print (Value.int n) = b_int_print n
  l_entry_print (Value.string t) = b_string_print t
  l_entry_print (Value.dict d) = dict_lines (d_entries_print 0 d)
  l_entry_print (Value.taken t) = if known_type t then none else line type_error

  pub d_entry_print : Value → Option (List Line)
  d_entry_print (Value.list xs) = list_lines (entries_print xs)
  d_entry_print (Value.int n) = b_int_print n
  d_entry_print (Value.string t) = b_string_print t
  d_entry_print (Value.dict d) = dict_lines (d_entries_print 0 d)
  d_entry_print (Value.taken t) = if known_type t then none else line type_error

  -- The loops of b_list_print and b_dict_print. `%s` of a key needs a NUL in its 128 bytes.
  pub entries_print : BList → Option (List Line)
  entries_print nil = some []
  entries_print (cons v xs) = before (l_entry_print v) (entries_print xs)

  pub d_entries_print : ℕ → BDict → Option (List Line)
  d_entries_print i end = some []
  d_entries_print i (entry k v d) =
      before
        (before (within (ltb (length k) key_len) (line (key_line i (type_of v) k)))
          (d_entry_print v))
        (d_entries_print (i + 1) d)

unfoldable pub b_list_print : BList → Option (List Line)
unfolding entries_print
b_list_print xs = list_lines (entries_print xs)

unfoldable pub b_dict_print : BDict → Option (List Line)
unfolding d_entries_print
b_dict_print d = dict_lines (d_entries_print 0 d)

-- What b_string_hex_print writes with printf: the number shown by "%02x " or a line break.
pub data Hex : Type 0 where
  shown : ℕ → Hex
  newline : Hex

-- A signed char as the unsigned int that `%x` takes it for.
abbrev pub char_value : ℕ → ℕ
char_value b = if ltb b 128 then b else 2 ^ 32 - 256 + b

unfoldable pub hex_loop : ℕ → Bytes → List Hex
hex_loop i [] = newline ∷ []
hex_loop i (b ∷ bs) =
    let rest = hex_loop (i + 1) bs in
    if not (i == 0) && i % 16 == 0
    then newline ∷ shown (char_value b) ∷ rest
    else shown (char_value b) ∷ rest

-- `none` is a read past the string's block.
unfoldable pub b_string_hex_print : BString → Option (List Hex)
unfolding read hex_loop
b_string_hex_print t = elim t.head [
  | none ↦ if t.len == 0 then some (hex_loop 0 []) else none
  | some block ↦ elim (read t.len (drop t.off block)) [
    | none ↦ none
    | some bs ↦ some (hex_loop 0 bs)
  ]
]
