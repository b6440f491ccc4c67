-- ===== src/Bcode/Decimal.antt =====
-- `strtol`, as src/b_parse.c calls it on a zero-filled array, reads back a decimal print.
use bt_server.Common.{
  ℕ, zero, suc, ◌+◌, ◌-◌, ◌*◌, ◌/◌, ◌%◌, ◌^◌, ◌≤◌, ◌<◌, ◌≡◌, ◌≢◌, ◌∙◌, ap, inl, inr, false, some,
  [], ◌∷◌, ◌++◌, append_assoc, arith, ltb, ltb→lt, lt→ltb, le→leb, ==-refl, ne→==, Bool-cases,
  length, length-append, All, All-append, pos, replicate,
}
use bt_server.Libc.{Bytes, found, strchr}
use bt_server.Libc.Strtol.{scan_digits, strtol, signed, clip_pos, long, long_max, is_digit}
use bt_server.Bcode.Scalars.{zero_filled}
use bt_server.Bcode.Encode.{digits, decimal}

abbrev pub IsDigit : ℕ → Type 0
IsDigit c = (b'0' ≤ c) × (c ≤ b'9')

digits-IsDigit : (f n : ℕ) → All IsDigit (digits f n)
unfolding digits
digits-IsDigit zero n = tt
digits-IsDigit (suc f) n = elim (Bool-cases (ltb n 10)) [
  | inl e ↦ rw e (ground arith)
  | inr e ↦ rw e (All-append IsDigit _ _ (digits-IsDigit f (n / 10)) (omega arith))
]

decimal-IsDigit : (n : ℕ) → All IsDigit (decimal n)
unfolding decimal
decimal-IsDigit n = digits-IsDigit (suc n) n

scan_digits_step :
    (d m : ℕ) (s : Bytes) → d < 10 → scan_digits ((b'0' + d) ∷ s) m ≡ scan_digits s (10 * m + d)
unfolding scan_digits
scan_digits_step d m s h = ground arith

-- Reading the digits of `n` from the front of an array continues behind them with `n`.
scan_digits-digits :
    (f n : ℕ) (rest : Bytes) → n < f → scan_digits (digits f n ++ rest) 0 ≡ scan_digits rest n
unfolding digits
scan_digits-digits zero n rest h = absurd (omega arith)
scan_digits-digits (suc f) n rest h = elim (Bool-cases (ltb n 10)) [
  | inl e ↦ rw e (scan_digits_step n 0 rest (ltb→lt n 10 e) ∙ ap (scan_digits rest) (omega arith))
  | inr e ↦
      let more = (b'0' + n % 10) ∷ rest in
      rw (e, append_assoc, scan_digits-digits f (n / 10) more (ground arith))
        (scan_digits_step (n % 10) (n / 10) rest (omega arith)
          ∙ ap (scan_digits rest) (omega arith))
]

digits-head : (f n : ℕ) → n < f → (c : ℕ) × (cs : Bytes) × (digits f n ≡ c ∷ cs) × IsDigit c
unfolding digits
digits-head zero n h = absurd (omega arith)
digits-head (suc f) n h = elim (Bool-cases (ltb n 10)) [
  | inl e ↦ (b'0' + n, [], rw e, ground arith)
  | inr e ↦
      let (c, cs, eq, d) = digits-head f (n / 10) (ground arith) in
      (c, cs ++ (b'0' + n % 10) ∷ [], rw (e, eq), d)
]

pub decimal-head : (n : ℕ) → (c : ℕ) × (cs : Bytes) × (decimal n ≡ c ∷ cs) × IsDigit c
unfolding decimal
decimal-head n = digits-head (suc n) n (omega arith)

-- The least number of `k + 2` digits.
abbrev pow_ten : ℕ → ℕ
pow_ten zero = 10
pow_ten (suc k) = 10 * pow_ten k

length-digits : (k f n : ℕ) → n < pow_ten k → length (digits f n) ≤ suc k
unfolding digits
length-digits k zero n h = omega arith
length-digits zero (suc f) n h = rw (lt→ltb n 10 h) (omega arith)
length-digits (suc k) (suc f) n h = elim (Bool-cases (ltb n 10)) [
  | inl e ↦ rw e (omega arith)
  | inr e ↦
      rw (e, length-append (digits f (n / 10)) ((b'0' + n % 10) ∷ []))
        (omega (arith, length-digits k f (n / 10)))
]

pub length-decimal : (n : ℕ) → n < 2 ^ 32 → length (decimal n) ≤ 10
unfolding decimal
length-decimal n h = length-digits 9 (suc n) n (omega arith)

-- A number that a `long` holds has at most 19 digits.
pub length-decimal_long : (n : ℕ) → n ≤ long_max → length (decimal n) ≤ 19
unfolding decimal
length-decimal_long n h = length-digits 18 (suc n) n (omega arith)

pub scan_digits-decimal :
    (n : ℕ) (rest : Bytes) → scan_digits (decimal n ++ rest) 0 ≡ scan_digits rest n
unfolding decimal
scan_digits-decimal n rest = scan_digits-digits (suc n) n rest (omega arith)

pub strtol_digit :
    (c : ℕ) (s : Bytes) → IsDigit c → strtol (c ∷ s) ≡ signed clip_pos (scan_digits (c ∷ s) 0)
unfolding strtol
strtol_digit c s h = ground arith

strtol-decimal-signed :
    (n : ℕ) (rest : Bytes)
    → strtol (decimal n ++ rest) ≡ signed clip_pos (scan_digits (decimal n ++ rest) 0)
strtol-decimal-signed n rest =
    let (c, cs, eq, digit) = decimal-head n in rw eq (strtol_digit c (cs ++ rest) digit)

pub scan_digits_stop :
    (n c : ℕ) (rest : Bytes) → is_digit c ≡ false → scan_digits (c ∷ rest) n ≡ some n
unfolding scan_digits
scan_digits_stop n c rest h = rw h

clip_pos_fits : (n : ℕ) → n ≤ long_max → signed clip_pos (some n) ≡ some (long (pos n) false)
unfolding signed clip_pos
clip_pos_fits n h = rw (le→leb n long_max h)

-- Digits with any other byte behind them are read as their number.
pub strtol-decimal :
    (n c : ℕ) (rest : Bytes)
    → n ≤ long_max
    → is_digit c ≡ false
    → strtol (decimal n ++ c ∷ rest) ≡ some (long (pos n) false)
strtol-decimal n c rest fits stop =
    rw (strtol-decimal-signed, scan_digits-decimal, scan_digits_stop n c rest stop)
      (clip_pos_fits n fits)

-- strchr passes over bytes that are neither what it looks for nor NUL.
abbrev pub Passes : ℕ → ℕ → Type 0
Passes c b = (b ≢ c) × (b ≢ 0)

pub strchr_found :
    (c : ℕ) (before after : Bytes)
    → All (Passes c) before
    → strchr c (before ++ c ∷ after) ≡ found before after
unfolding strchr
strchr_found c [] after h = rw (==-refl c)
strchr_found c (b ∷ bs) after (p, h) = rw (ne→== b c p.0, ne→== b 0 p.1, strchr_found c bs after h)

All-mono {ℓ} : {P Q : ℕ → Type ℓ} (xs : Bytes) → ((x : ℕ) → P x → Q x) → All P xs → All Q xs
All-mono [] f h = tt
All-mono (x ∷ xs) f (p, h) = (f x p, All-mono xs f h)

pub decimal-Passes : (c n : ℕ) → b'9' < c → All (Passes c) (decimal n)
decimal-Passes c n h =
    All-mono {P = IsDigit} {Q = Passes c} (decimal n)
      (λ x d. (λ e. absurd (omega arith), λ e. absurd (omega arith))) (decimal-IsDigit n)

-- A short text in a zero-filled array is followed by a NUL.
pub zero_filled_lem :
    (n : ℕ) (xs : Bytes) → length xs < n → (k : ℕ) × (zero_filled n xs ≡ xs ++ 0 ∷ replicate k 0)
zero_filled_lem n xs h =
    let e : n - length xs ≡ suc (n - length xs - 1) = omega arith in
    (n - length xs - 1, ap (λ (m : ℕ). xs ++ replicate m 0) e)
