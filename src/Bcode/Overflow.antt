-- ===== src/Bcode/Overflow.antt =====
-- The message of b_string_parse and b_int_parse in src/b_parse.c about a buffer that does not hold
-- what they look for, in the buffer of print_msg in src/bttrace.c.
use bt_server.Common.{
  ℕ, ◌+◌, ◌≡◌, refl, ◌∙◌, ap, false, [], ◌∷◌, ◌++◌, ltb, ◌==◌, ne→==, if◌then◌else◌, length,
  length-append, arith, All,
}
use bt_server.Libc.{Bytes, strchr, missing, codes, c_str}
use bt_server.Trace.{fits, message, buffer_len}
use bt_server.Bcode.{BString, BInt, Process, null, fault}
use bt_server.Bcode.Scalars.{b_string_parse, b_string_found, b_int_parse, b_int_found, format_error}
use bt_server.Bcode.Encode.{decimal, digits}
use bt_server.Bcode.Decimal.{Passes}

-- The text in the buffer ends before the byte that is looked for.
strchr-missing :
    (c : ℕ) (bs rest : Bytes)
    → All (Passes c) bs
    → (0 == c) ≡ false
    → strchr c (bs ++ 0 ∷ rest) ≡ missing
unfolding strchr
strchr-missing c [] rest h n = rw n refl
strchr-missing c (b ∷ bs) rest ((p, q), h) n =
    rw (ne→== b c p, ne→== b 0 q, strchr-missing c bs rest h n) refl

c_str-text : (c : ℕ) (bs rest : Bytes) → All (Passes c) bs → c_str (bs ++ 0 ∷ rest) ≡ bs
unfolding c_str
c_str-text c [] rest h = refl
c_str-text c (b ∷ bs) rest ((p, q), h) = rw (ne→== b 0 q, c_str-text c bs rest h) refl

ltb_shift : (a b c d : ℕ) → a + d ≡ b + c → ltb a c ≡ ltb b d
ltb_shift a b c d h = ground arith

fits_text :
    (func : Bytes) (line k : ℕ) (buf bs : Bytes)
    → c_str buf ≡ bs
    → length func + length (decimal line) + k ≡ 1955
    → fits func line (format_error buf) ≡ ltb (length bs) k
unfolding fits
fits_text func line k buf bs h e =
    let said = codes "B-coding string format error: " ++ bs ++ 10 ∷ [] in
    ap (λ x. fits func line (codes "B-coding string format error: " ++ x ++ 10 ∷ [])) h
    ∙ ltb_shift (length (message func line said)) (length bs) buffer_len k (
        omega (
          arith,
          e,
          length-append (func ++ codes "(" ++ decimal line ++ codes ") ") said,
          length-append (func ++ codes "(" ++ decimal line) (codes ") "),
          length-append (func ++ codes "(") (decimal line),
          length-append func (codes "("),
          length-append bs (10 ∷ []),
        ))

-- A buffer that holds a text without a colon, or without an `e`: b_string_parse or b_int_parse returns
-- NULL, with the object and the process as they were, if the text is shorter than 1938 or 1941 bytes;
-- a longer one is shown by print_msg in a buffer that is too short for it, which is undefined.
pub b_string_parse-format_error :
    (bs cs rest : Bytes) (t : BString) (n : BInt) (s : Process)
    → All (Passes b':') bs
    → All (Passes b'e') cs
    → (b_string_parse (bs ++ 0 ∷ rest) t s ≡ (if ltb (length bs) 1938 then null t s else fault))
      × (b_int_parse (cs ++ 0 ∷ rest) n s ≡ (if ltb (length cs) 1941 then null n s else fault))
unfolding b_string_parse b_int_parse b_string_found b_int_found decimal digits
b_string_parse-format_error bs cs rest t n s h g = (
  rw (strchr-missing b':' bs rest h refl) (
      rw
        (fits_text (codes "b_string_parse") 165 1938 (bs ++ 0 ∷ rest) bs (c_str-text b':' bs rest h)
          refl)
        refl),
  rw (strchr-missing b'e' cs rest g refl) (
      rw
        (fits_text (codes "b_int_parse") 235 1941 (cs ++ 0 ∷ rest) cs (c_str-text b'e' cs rest g)
          refl)
        refl),
)
