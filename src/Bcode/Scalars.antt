-- ===== src/Bcode/Scalars.antt =====
-- src/b_parse.c: the parsers of strings and integers, and their part of the switch in the loops.
use bt_server.Common.{
  ℕ, ◌+◌, ◌-◌, ◌^◌, ◌%◌, min, Bool, ◌&&◌, ◌||◌, not, Option, none, some, [], ◌∷◌, ◌++◌, ltb, ◌==◌,
  if◌then◌else◌, ℤ, pos, negsuc, to_u32, length, take, drop, replicate,
}
use bt_server.Trace.{fits}
use bt_server.Libc.{codes, c_str, Bytes, Search, found, missing, overrun, strchr}
use bt_server.Libc.Strtol.{Long, strtol, long_max}
use bt_server.Bcode.{BString, BInt, Value, Process, Outcome, next, null, fault, returned}
use bt_server.Bcode.Objects.{
  malloc, b_string_alloc, b_string_free, b_string_set, b_string_set_head, b_string_set_length,
  b_int_alloc, b_int_free, b_int_set,
}

abbrev pub integer_len : ℕ
integer_len = 20

abbrev pub erange : ℕ
erange = 34

-- An array of `n` zero bytes after a memcpy of `bs` to its front.
abbrev pub zero_filled : ℕ → Bytes → Bytes
zero_filled n bs = bs ++ replicate (n - length bs) 0

-- strtol sets `errno` when the value is out of range.
unfoldable pub note_range : Bool → Process → Process
note_range r s = if r then record s { errno = erange } else s

-- `(errno == ERANGE && (val == LONG_MAX || val == LONG_MIN)) || (errno != 0 && val == 0)`
unfoldable pub strtol_failed : ℤ → Process → Bool
strtol_failed (pos n) s = (s.errno == erange && n == long_max) || (not (s.errno == 0) && n == 0)
strtol_failed (negsuc n) s = s.errno == erange && n == long_max

-- `malloc(val + 1)`, `memcpy(tmp_b, s + 1, val)` and the NUL behind it. A failed malloc is not
-- checked: the write goes through NULL. The NUL has to lie within the `size` bytes of the block.
unfoldable pub string_body : ℕ → Bytes → BString → Process → Outcome BString
unfolding malloc b_string_set b_string_set_head b_string_set_length
string_body n after target s =
    let size = n + 1 in
    let (got, s') = malloc size s in
    let block = take n after ++ 0 ∷ [] in
    let t =
      b_string_set_length (b_string_set_head (b_string_set target 0) (some block)) (n % 2 ^ 32) in
    if not got || ltb (length after) n || not (ltb n size) then fault else next t (drop n after) s'

-- With a negative length the memcpy reads close to 2^64 bytes.
unfoldable pub string_long : ℤ → Bytes → BString → Process → Outcome BString
unfolding string_body
string_long (pos n) after target s = string_body n after target s
string_long (negsuc n) after target s = fault

-- `endptr == ptr` compares pointers into two arrays and is never true.
unfoldable pub string_value : Option Long → Bytes → BString → Process → Outcome BString
unfolding note_range strtol_failed string_long
string_value none after target s = fault
string_value (some v) after target s =
    let s' = note_range v.range s in
    if strtol_failed v.value s' then null target s' else string_long v.value after target s'

-- `tmp` of b_string_parse: at most 20 of the bytes before the colon, in 21 zero bytes.
abbrev pub string_tmp : Bytes → Bytes
string_tmp before = zero_filled (integer_len + 1) (take integer_len before)

-- TRACE of "B-coding string format error: %s\n" with the buffer
abbrev pub format_error : Bytes → Bytes
format_error buf = codes "B-coding string format error: " ++ c_str buf ++ 10 ∷ []

unfoldable pub b_string_found : Bytes → Search → BString → Process → Outcome BString
unfolding strtol string_value c_str fits
b_string_found buf (found before after) target s =
    string_value (strtol (string_tmp before)) after target s
b_string_found buf missing target s =
    if fits (codes "b_string_parse") 165 (format_error buf) then null target s else fault
b_string_found buf overrun target s = fault

unfoldable pub b_string_parse : Bytes → BString → Process → Outcome BString
unfolding strchr b_string_found
b_string_parse buf target s = b_string_found buf (strchr b':' buf) target s

-- The same test on `ret->val`, an unsigned int, so no value of it is LONG_MIN.
unfoldable pub int_failed : ℕ → Process → Bool
int_failed n s = (s.errno == erange && n == long_max) || (not (s.errno == 0) && n == 0)

unfoldable pub int_value : Option Long → Bytes → BInt → Process → Outcome BInt
unfolding note_range int_failed b_int_set
int_value none after ret s = fault
int_value (some v) after ret s =
    let s' = note_range v.range s in
    let n = to_u32 v.value in
    if int_failed n s' then null (b_int_set ret n) s' else next (b_int_set ret n) after s'

-- `tmp` of b_int_parse: `memcpy(tmp, ptr + 1, len)` copies up to the `e`, and that too, into 20
-- zero bytes.
abbrev pub int_tmp : Bytes → Bytes → Bytes
int_tmp buf before =
    let len = min integer_len (length before % 2 ^ 32) in
    zero_filled integer_len (take len (drop 1 buf))

unfoldable pub b_int_found : Bytes → Search → BInt → Process → Outcome BInt
unfolding strtol int_value c_str fits
b_int_found buf (found before after) ret s = int_value (strtol (int_tmp buf before)) after ret s
b_int_found buf missing ret s =
    if fits (codes "b_int_parse") 235 (format_error buf) then null ret s else fault
b_int_found buf overrun ret s = fault

unfoldable pub b_int_parse : Bytes → BInt → Process → Outcome BInt
unfolding strchr b_int_found
b_int_parse buf ret s = b_int_found buf (strchr b'e' buf) ret s

-- `new = …_alloc(); if (new) …`: without memory the cursor stays where it is.
abbrev pub allocated :
    {A : Type 0}
    → Option A × Process
    → Bytes
    → (A → Process → Outcome (Option Value))
    → Outcome (Option Value)
allocated r p k = elim r.0 [ none ↦ next none p r.1 | some new ↦ k new r.1 ]

-- The switch in the loops of b_list_parse and b_dict_parse: the object at the cursor, `none` where
-- there was no memory for it. Where it does not parse, the new object is released.
unfoldable pub int_item : Bytes → Process → Outcome (Option Value)
unfolding b_int_alloc b_int_free
int_item p s = allocated (b_int_alloc s) p λ new s₁.
    returned (b_int_parse p new s₁) (λ n q s₂. next (some (Value.int n)) q s₂)
      (λ n s₂. null none (b_int_free (some n) s₂))

unfoldable pub string_item : Bytes → Process → Outcome (Option Value)
unfolding b_string_alloc b_string_free
string_item p s = allocated (b_string_alloc s) p λ new s₁.
    returned (b_string_parse p new s₁) (λ t q s₂. next (some (Value.string t)) q s₂)
      (λ t s₂. null none (b_string_free (some t) s₂))

-- The bytes that a C string function reads at `data`.
unfoldable pub string_data : BString → Bytes
string_data t = elim t.head [ none ↦ [] | some block ↦ drop t.off block ]
