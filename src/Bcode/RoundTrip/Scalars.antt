-- ===== src/Bcode/RoundTrip/Scalars.antt =====
-- The string and integer parsers of src/b_parse.c read back what B-coding prints.
use bt_server.Common.{
  ℕ, suc, ◌+◌, ◌%◌, ◌^◌, ◌<◌, ◌≡◌, refl, ap, false, some, [], ◌∷◌, ◌++◌, append_assoc, arith,
  length, length-append, All, pos, take, replicate, min, take-eq_of_le, take-length_append,
  drop-length_append,
}
use bt_server.Libc.{Bytes, found, strchr}
use bt_server.Libc.Strtol.{strtol, long}
use bt_server.Bcode.{BString, BInt, Process, next}
use bt_server.Bcode.Objects.{alloc, malloc, b_string_alloc, b_int_alloc, empty_string}
use bt_server.Bcode.Scalars.{
  string_body, string_value, b_string_parse, string_tmp, int_value, b_int_parse, int_tmp, int_item,
  string_item, strtol_failed, int_failed,
}
use bt_server.Bcode.Encode.{decimal, encode_text, of_bytes, Term, encode, object}
use bt_server.Bcode.Decimal.{
  length-decimal, strtol-decimal, strchr_found, decimal-Passes, zero_filled_lem, Passes,
}
use bt_server.Bcode.Total.Endings.{Plenty}

-- `a` further calls of malloc, and `l` more live blocks.
abbrev pub grown : Process → ℕ → ℕ → Process
grown s a l = record s { calls = s.calls + a; live = s.live + l }

-- The array that b_string_parse hands to strtol holds the digits and a NUL.
pub strtol-string_tmp :
    (n : ℕ) → n < 2 ^ 32 → strtol (string_tmp (decimal n)) ≡ some (long (pos n) false)
strtol-string_tmp n h =
    let few = length-decimal n h in
    let (k, eq) = zero_filled_lem 21 (decimal n) (omega arith) in
    rw (take-eq_of_le 20 (decimal n) (omega arith), eq)
      (strtol-decimal n 0 (replicate k 0) (omega arith) refl)

pub take-snoc :
    (xs : Bytes) (c : ℕ) (rest : Bytes) → take (suc (length xs)) (xs ++ c ∷ rest) ≡ xs ++ c ∷ []
take-snoc [] c rest = refl
take-snoc (x ∷ xs) c rest = ap (λ ys. x ∷ ys) (take-snoc xs c rest)

-- The array of b_int_parse also holds the `e`.
strtol-int_tmp :
    (n : ℕ) (rest : Bytes)
    → n < 2 ^ 32
    → strtol (int_tmp (b'i' ∷ decimal n ++ b'e' ∷ rest) (b'i' ∷ decimal n))
      ≡ some (long (pos n) false)
strtol-int_tmp n rest h =
    let few = length-decimal n h in
    let len : min 20 (suc (length (decimal n)) % 2 ^ 32) ≡ suc (length (decimal n)) = omega arith in
    let (k, eq) =
      zero_filled_lem 20 (decimal n ++ b'e' ∷ [])
        (omega (arith, length-append (decimal n) (b'e' ∷ []))) in
    rw (len, take-snoc (decimal n) b'e' rest, eq, append_assoc)
      (strtol-decimal n b'e' (0 ∷ replicate k 0) (omega arith) refl)

pub string_body_fits :
    (bs rest : Bytes) (s : Process)
    → length bs < 2 ^ 32
    → Plenty s
    → string_body (length bs) (bs ++ rest) empty_string s ≡ next (of_bytes bs) rest (grown s 1 1)
unfolding string_body malloc of_bytes
string_body_fits bs rest s h p =
    rw (p s.calls (length bs + 1), take-length_append bs rest, drop-length_append bs rest)
      (ground (arith, length-append bs rest))

strtol_failed_fits :
    (n : ℕ) (s : Process) → n < 2 ^ 32 → s.errno ≡ 0 → strtol_failed (pos n) s ≡ false
unfolding strtol_failed
strtol_failed_fits n s h e = rw e refl

pub string_value_fits :
    (n : ℕ) (after : Bytes) (t : BString) (s : Process)
    → n < 2 ^ 32
    → s.errno ≡ 0
    → string_value (some (long (pos n) false)) after t s ≡ string_body n after t s
unfolding string_value
string_value_fits n after t s h e = rw (strtol_failed_fits n s h e)

-- A string is read with a copy of its bytes, and nothing behind it is touched.
pub b_string_parse-text :
    (bs rest : Bytes) (s : Process)
    → length bs < 2 ^ 32
    → Plenty s
    → s.errno ≡ 0
    → b_string_parse (encode_text bs ++ rest) empty_string s ≡ next (of_bytes bs) rest (grown s 1 1)
unfolding b_string_parse encode_text
b_string_parse-text bs rest s h p e =
    rw (append_assoc, strchr_found b':' _ _ (decimal-Passes b':' (length bs) (omega arith)))
      (rw (strtol-string_tmp (length bs) h, string_value_fits (length bs) _ _ s h e)
        (string_body_fits bs rest s h p))

pub int_failed_fits : (n : ℕ) (s : Process) → n < 2 ^ 32 → s.errno ≡ 0 → int_failed n s ≡ false
unfolding int_failed
int_failed_fits n s h e = rw e refl

int_value_fits :
    (n : ℕ) (after : Bytes) (ret : BInt) (s : Process)
    → n < 2 ^ 32
    → s.errno ≡ 0
    → int_value (some (long (pos n) false)) after ret s ≡ next (record { val = n }) after s
unfolding int_value
int_value_fits n after ret s h e =
    let whole : n % 2 ^ 32 ≡ n = omega arith in rw (whole, int_failed_fits n s h e)

pub i-Passes-decimal : (n : ℕ) → All (Passes b'e') (b'i' ∷ decimal n)
i-Passes-decimal n =
    ((λ e. absurd (omega arith), λ e. absurd (omega arith)), decimal-Passes b'e' n (omega arith))

pub b_int_parse-found :
    (buf : Bytes) {before after : Bytes} (ret : BInt) (s : Process)
    → strchr b'e' buf ≡ found before after
    → b_int_parse buf ret s ≡ int_value (strtol (int_tmp buf before)) after ret s
unfolding b_int_parse
b_int_parse-found buf ret s h = rw h

pub encode-number_append :
    (n : ℕ) (rest : Bytes) → encode (Term.number n) ++ rest ≡ b'i' ∷ decimal n ++ b'e' ∷ rest
unfolding encode
encode-number_append n rest = append_assoc (b'i' ∷ decimal n) _ rest

-- An integer is read up to its `e`.
b_int_parse-number :
    (n : ℕ) (rest : Bytes) (ret : BInt) (s : Process)
    → n < 2 ^ 32
    → s.errno ≡ 0
    → b_int_parse (encode (Term.number n) ++ rest) ret s ≡ next (record { val = n }) rest s
b_int_parse-number n rest ret s h e =
    let buf : Bytes = b'i' ∷ decimal n ++ b'e' ∷ rest in
    let split = strchr_found b'e' (b'i' ∷ decimal n) rest (i-Passes-decimal n) in
    rw (encode-number_append, b_int_parse-found buf ret s split, strtol-int_tmp n rest h)
      (int_value_fits n rest ret s h e)

pub int_item-number :
    (n : ℕ) (rest : Bytes) (s : Process)
    → n < 2 ^ 32
    → Plenty s
    → s.errno ≡ 0
    → int_item (encode (Term.number n) ++ rest) s
      ≡ next (some (object (Term.number n))) rest (grown s 1 1)
unfolding int_item b_int_alloc alloc malloc object
int_item-number n rest s h p e = rw (p s.calls 16, b_int_parse-number n rest _ (grown s 1 1) h e)

pub string_item-text :
    (bs rest : Bytes) (s : Process)
    → length bs < 2 ^ 32
    → Plenty s
    → s.errno ≡ 0
    → string_item (encode_text bs ++ rest) s
      ≡ next (some (object (Term.text bs))) rest (grown s 2 2)
unfolding string_item b_string_alloc alloc malloc object
string_item-text bs rest s h p e =
    rw (p s.calls 32, b_string_parse-text bs rest (grown s 1 1) h p e) (ground arith)
