-- ===== src/Bcode/Malformed.antt =====
-- Input that b_string_parse and b_int_parse of src/b_parse.c do not expect.
use bt_server.Common.{
  ℕ, ◌+◌, ◌^◌, ◌<◌, ◌≡◌, ◌≢◌, refl, inl, inr, Bool, true, false, not, ◌||◌, [], ◌∷◌, ◌++◌, arith,
  lt→ltb, le→leb, ◌≤◌, ◌-◌, some, negsuc, All, replicate, take-eq_of_le, ne→==, ◌==◌, if◌then◌else◌,
  Bool-cases, length, pos,
}
use bt_server.Libc.{Bytes, strchr}
use mathlib.Core.Bool.{and-false}
use bt_server.Libc.Strtol.{strtol, strtol_sign, signed, clip_neg, long, long_max, is_digit}
use bt_server.Bcode.{BString, BInt, Process, Outcome, next, null, fault}
use bt_server.Bcode.Objects.{malloc, empty_string}
use bt_server.Bcode.Scalars.{
  string_body, string_value, b_string_found, b_string_parse, string_tmp, int_value, b_int_found,
  b_int_parse, strtol_failed, int_failed, note_range,
}
use bt_server.Bcode.Encode.{decimal, of_bytes}
use bt_server.Bcode.Decimal.{
  decimal-Passes, strchr_found, Passes, scan_digits-decimal, scan_digits_stop, length-decimal,
  zero_filled_lem,
}
use bt_server.Bcode.Total.Endings.{Plenty}
use bt_server.Bcode.RoundTrip.Scalars.{
  grown, string_body_fits, strtol-string_tmp, string_value_fits,
}

fault-either :
    (got u : Bool) (x : Outcome BString) → (if not got || true || u then fault else x) ≡ fault
fault-either true u x = refl
fault-either false u x = refl

string_body_short :
    (n : ℕ) (after : Bytes) (t : BString) (s : Process)
    → length after < n
    → string_body n after t s ≡ fault
unfolding string_body malloc
string_body_short n after t s h =
    rw (lt→ltb (length after) n h) (fault-either (malloc (n + 1) s).0 _ _)

strtol-negative :
    (n c : ℕ) (rest : Bytes)
    → 0 < n
    → n ≤ long_max
    → is_digit c ≡ false
    → strtol (b'-' ∷ decimal n ++ c ∷ rest) ≡ some (long (negsuc (n - 1)) false)
unfolding strtol strtol_sign signed clip_neg
strtol-negative n c rest h fits stop =
    rw (scan_digits-decimal, scan_digits_stop n c rest stop)
      (rw (ne→== n 0 (λ e. absurd (omega arith)), le→leb n (long_max + 1) (omega arith)) refl)

string_value_negative :
    (n : ℕ) (after : Bytes) (t : BString) (s : Process)
    → n < 2 ^ 32
    → string_value (some (long (negsuc n) false)) after t s ≡ fault
unfolding string_value strtol_failed
string_value_negative n after t s h =
    rw (ne→== n long_max (λ e. absurd (omega arith)), and-false) refl

strtol-string_tmp_negative :
    (n : ℕ)
    → 0 < n
    → n < 2 ^ 32
    → strtol (string_tmp (b'-' ∷ decimal n)) ≡ some (long (negsuc (n - 1)) false)
strtol-string_tmp_negative n p h =
    let few = length-decimal n h in
    let (k, eq) = zero_filled_lem 21 (b'-' ∷ decimal n) (omega arith) in
    rw (take-eq_of_le 19 (decimal n) (omega arith), eq)
      (strtol-negative n 0 (replicate k 0) p (omega arith) refl)

read_negative :
    (n : ℕ) (after : Bytes) (s : Process)
    → 0 < n
    → n < 2 ^ 32
    → b_string_parse (b'-' ∷ decimal n ++ b':' ∷ after) empty_string s ≡ fault
unfolding b_string_parse
read_negative n after s p h =
    let minus : All (Passes b':') (b'-' ∷ decimal n) = (
      ((λ e. absurd (omega arith)), (λ e. absurd (omega arith))),
      decimal-Passes b':' n (omega arith),
    ) in
    rw (strchr_found b':' (b'-' ∷ decimal n) after minus) (
      rw (strtol-string_tmp_negative n p h)
        (string_value_negative (n - 1) after empty_string s (omega arith)))

-- A length that fits 32 bits but is larger than what is left of the buffer, or one that is negative
-- and above -2^32: with a zero errno, b_string_parse reads past the buffer, whether malloc refuses or
-- not.
pub b_string_parse-overread :
    (n m : ℕ) (after : Bytes) (s : Process)
    → n < 2 ^ 32
    → length after < n
    → 0 < m
    → m < 2 ^ 32
    → s.errno ≡ 0
    → (b_string_parse (decimal n ++ b':' ∷ after) empty_string s ≡ fault)
      × (b_string_parse (b'-' ∷ decimal m ++ b':' ∷ after) empty_string s ≡ fault)
unfolding b_string_parse
b_string_parse-overread n m after s h short p q e = (
  rw (strchr_found b':' _ _ (decimal-Passes b':' n (omega arith))) (
      rw (strtol-string_tmp n h, string_value_fits n _ _ s h e)
        (string_body_short n after empty_string s short)),
  read_negative m after s p q,
)

strtol_failed_stale : (s : Process) → s.errno ≢ 0 → strtol_failed (pos 0) s ≡ true
unfolding strtol_failed
strtol_failed_stale s e = elim (Bool-cases (s.errno == 34)) [
  | inl q ↦ rw (q, ne→== s.errno 0 e) refl
  | inr q ↦ rw (q, ne→== s.errno 0 e) refl
]

int_failed_stale : (s : Process) → s.errno ≢ 0 → int_failed 0 s ≡ true
unfolding int_failed
int_failed_stale s e = elim (Bool-cases (s.errno == 34)) [
  | inl q ↦ rw (q, ne→== s.errno 0 e) refl
  | inr q ↦ rw (q, ne→== s.errno 0 e) refl
]

-- An errno that an earlier call left behind makes an empty string and the number 0 fail: NULL is
-- returned, whatever follows in the buffer.
pub zero-stale_errno :
    (rest : Bytes) (t : BString) (n : BInt) (s : Process)
    → s.errno ≢ 0
    → (b_string_parse (b'0' ∷ b':' ∷ rest) t s ≡ null t s)
      × (b_int_parse (b'i' ∷ b'0' ∷ b'e' ∷ rest) n s ≡ null (record { val = 0 }) s)
unfolding b_string_parse b_string_found strchr strtol string_value note_range b_int_parse
    b_int_found int_value
zero-stale_errno rest t n s e = (rw (strtol_failed_stale s e) refl, rw (int_failed_stale s e) refl)

-- A string without any digits of a length is read as an empty string.
b_string_parse-no_digits :
    (rest : Bytes) (s : Process)
    → Plenty s
    → s.errno ≡ 0
    → b_string_parse (b':' ∷ rest) empty_string s ≡ next (of_bytes []) rest (grown s 1 1)
unfolding b_string_parse b_string_found strchr strtol
b_string_parse-no_digits rest s p e =
    rw (string_value_fits 0 rest empty_string s (omega arith) e)
      (string_body_fits [] rest s (omega arith) p)
