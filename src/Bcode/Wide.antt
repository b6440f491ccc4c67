-- ===== src/Bcode/Wide.antt =====
-- b_int_parse of src/b_parse.c on integers that its types have no room for.
use bt_server.Common.{
  ℕ, zero, suc, ◌+◌, ◌-◌, ◌*◌, false, append-nil, ◌%◌, ◌^◌, ◌≤◌, ◌<◌, ◌≡◌, refl, none, some, [],
  ◌∷◌, ◌++◌, arith, append_assoc, length, length-append, length-take, All, take, min, pos,
}
use bt_server.Libc.{Bytes}
use bt_server.Libc.Strtol.{scan_digits, strtol, signed, long, long_max}
use bt_server.Bcode.{BInt, Process, next, fault}
use bt_server.Bcode.Scalars.{b_int_parse, int_tmp, int_value}
use bt_server.Bcode.Encode.{decimal}
use bt_server.Bcode.Decimal.{
  IsDigit, length-decimal_long, strtol-decimal, strtol_digit, strchr_found, Passes,
}
use bt_server.Bcode.RoundTrip.Scalars.{
  i-Passes-decimal, b_int_parse-found, take-snoc, int_failed_fits,
}

strtol-wide_int_tmp :
    (n : ℕ) (rest : Bytes)
    → n ≤ long_max
    → strtol (int_tmp (b'i' ∷ decimal n ++ b'e' ∷ rest) (b'i' ∷ decimal n))
      ≡ some (long (pos n) false)
strtol-wide_int_tmp n rest h =
    let few = length-decimal_long n h in
    let len : min 20 (suc (length (decimal n)) % 2 ^ 32) ≡ suc (length (decimal n)) = omega arith in
    rw (len, take-snoc (decimal n) b'e' rest, append_assoc) (strtol-decimal n b'e' _ h refl)

int_value_wraps :
    (n : ℕ) (after : Bytes) (ret : BInt) (s : Process)
    → s.errno ≡ 0
    → int_value (some (long (pos n) false)) after ret s ≡ next (record { val = n % 2 ^ 32 }) after s
unfolding int_value
int_value_wraps n after ret s e = rw (int_failed_fits (n % 2 ^ 32) s (omega arith) e) refl

scan_digits-all : (ds : Bytes) (m : ℕ) → All IsDigit ds → scan_digits ds m ≡ none
unfolding scan_digits
scan_digits-all [] m h = refl
scan_digits-all (d ∷ ds) m (p, h) = rw (scan_digits-all ds (10 * m + (d - b'0')) h) (ground arith)

strtol-all : (ds : Bytes) → All IsDigit ds → strtol ds ≡ none
unfolding strtol signed
strtol-all [] h = refl
strtol-all (d ∷ ds) (p, h) = rw (strtol_digit d ds p, scan_digits-all (d ∷ ds) 0 (p, h)) refl

digits-Passes : (ds : Bytes) → All IsDigit ds → All (Passes b'e') ds
digits-Passes [] h = tt
digits-Passes (d ∷ ds) (p, h) =
    ((λ e. absurd (omega arith), λ e. absurd (omega arith)), digits-Passes ds h)

take-digits :
    (k : ℕ) (ds rest : Bytes) → All IsDigit ds → k ≤ length ds → All IsDigit (take k (ds ++ rest))
take-digits zero ds rest h l = tt
take-digits (suc k) [] rest h l = absurd (omega arith)
take-digits (suc k) (d ∷ ds) rest (p, h) l = (p, take-digits k ds rest h (omega arith))

strtol-full_int_tmp :
    (ds rest : Bytes)
    → All IsDigit ds
    → 20 ≤ length ds
    → length ds < 2 ^ 32 - 1
    → strtol (int_tmp (b'i' ∷ ds ++ rest) (b'i' ∷ ds)) ≡ none
strtol-full_int_tmp ds rest h l u =
    let text = take 20 (ds ++ rest) in
    let len : min 20 (suc (length ds) % 2 ^ 32) ≡ 20 = omega arith in
    let full : 20 - length text ≡ 0 =
      omega (arith, length-take 20 (ds ++ rest), length-append ds rest) in
    rw (len, full, append-nil) (strtol-all text (take-digits 20 ds rest h l))

int_value-none : (after : Bytes) (ret : BInt) (s : Process) → int_value none after ret s ≡ fault
unfolding int_value
int_value-none after ret s = refl

-- With a zero errno, b_int_parse reads a number that a `long` holds, and keeps its low 32 bits; on
-- twenty digits and more, as many as an `unsigned int` counts, the array that strtol reads is full of
-- digits, and strtol runs past its end.
pub b_int_parse_wide :
    (n : ℕ) (ds rest : Bytes) (ret : BInt) (s : Process)
    → n ≤ long_max
    → s.errno ≡ 0
    → All IsDigit ds
    → 20 ≤ length ds
    → length ds < 2 ^ 32 - 1
    → (b_int_parse (b'i' ∷ decimal n ++ b'e' ∷ rest) ret s
        ≡ next (record { val = n % 2 ^ 32 }) rest s)
      × (b_int_parse (b'i' ∷ ds ++ b'e' ∷ rest) ret s ≡ fault)
b_int_parse_wide n ds rest ret s h e d l u =
    let i : Passes b'e' b'i' = (λ q. absurd (omega arith), λ q. absurd (omega arith)) in
    (
      rw
          (
            b_int_parse-found (b'i' ∷ decimal n ++ b'e' ∷ rest) ret s
                (strchr_found b'e' (b'i' ∷ decimal n) rest (i-Passes-decimal n)),
            strtol-wide_int_tmp n rest h,
          )
          (int_value_wraps n rest ret s e),
      rw
          (
            b_int_parse-found (b'i' ∷ ds ++ b'e' ∷ rest) ret s
                (strchr_found b'e' (b'i' ∷ ds) rest (i, digits-Passes ds d)),
            strtol-full_int_tmp ds (b'e' ∷ rest) d l u,
          )
          (int_value-none rest ret s),
    )
