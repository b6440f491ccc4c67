-- ===== src/Libc/Strtol.antt =====
-- `strtol(nptr, &endptr, 10)` in the "C" locale with a 64-bit `long`.
use bt_server.Common.{
  ℕ, ◌+◌, ◌-◌, ◌*◌, ◌^◌, Bool, true, false, ◌||◌, ◌&&◌, Option, none, some, List, [], ◌∷◌, leb,
  ◌==◌, if◌then◌else◌, ℤ, pos, negsuc,
}

abbrev pub long_max : ℕ
long_max = 2 ^ 63 - 1

abbrev pub is_space : ℕ → Bool
is_space c = c == b' ' || (leb 9 c && leb c 13)

abbrev pub is_digit : ℕ → Bool
is_digit c = leb b'0' c && leb c b'9'

-- The digits read, as an unbounded number; `none` if the array ends before a byte that is none.
unfoldable pub scan_digits : List ℕ → ℕ → Option ℕ
scan_digits [] n = none
scan_digits (c ∷ s) n = if is_digit c then scan_digits s (10 * n + (c - b'0')) else some n

-- The value and whether it was out of range.
pub record Long : Type 0 where
  pub value : ℤ
  pub range : Bool

abbrev pub long : ℤ → Bool → Long
long v r = record { value = v; range = r }

unfoldable pub clip_pos : ℕ → Long
clip_pos n = if leb n long_max then long (pos n) false else long (pos long_max) true

unfoldable pub clip_neg : ℕ → Long
clip_neg n =
    if n == 0
    then long (pos 0) false
    else if leb n (long_max + 1)
    then long (negsuc (n - 1)) false
    else long (negsuc long_max) true

unfoldable pub signed : (ℕ → Long) → Option ℕ → Option Long
signed clip none = none
signed clip (some n) = some (clip n)

unfoldable pub strtol_sign : List ℕ → Option Long
unfolding signed clip_pos clip_neg scan_digits
strtol_sign [] = none
strtol_sign (c ∷ s) =
    if c == b'-'
    then signed clip_neg (scan_digits s 0)
    else if c == b'+'
    then signed clip_pos (scan_digits s 0)
    else signed clip_pos (scan_digits (c ∷ s) 0)

unfoldable pub strtol : List ℕ → Option Long
unfolding strtol_sign
strtol [] = none
strtol (c ∷ s) = if is_space c then strtol s else strtol_sign (c ∷ s)
