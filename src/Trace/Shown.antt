-- ===== src/Trace/Shown.antt =====
-- Which messages src/bttrace.c prints as its level is counted up.
use mathlib.Core.Bool.{or-false}
use bt_server.Common.{
  ℕ, zero, suc, ◌+◌, ◌/◌, ◌%◌, ◌^◌, ◌<◌, ◌≡◌, refl, Bool, true, false, none, some, arith, ◌==◌,
  if◌then◌else◌, length, lt→ltb, pos,
}
use bt_server.Libc.{Bytes}
use bt_server.Trace.{
  bttracelevel, bt_inc_msglevel, bt_set_msglevel, common_bit, message, buffer_len, print_msg,
  msg_error, msg_info, msg_dump,
}

-- `n` calls of bt_inc_msglevel
abbrev pub counted_up : ℕ → ℕ → ℕ
counted_up zero m = m
counted_up (suc n) m = bt_inc_msglevel (counted_up n m)

counted_up_lem : (n m : ℕ) → m < 2 ^ 32 → counted_up n m ≡ (m + n) % 2 ^ 32
unfolding bt_inc_msglevel
counted_up_lem zero m h = omega arith
counted_up_lem (suc n) m h = rw (counted_up_lem n m h) (omega arith)

common_bit-zero : (n b : ℕ) → common_bit n 0 b ≡ false
unfolding common_bit
common_bit-zero zero b = refl
common_bit-zero (suc n) b = rw (common_bit-zero n (b / 2)) refl

-- The bit of the level that lets a message of this level pass.
abbrev passes : ℕ → ℕ → Bool
passes k msglevel = msglevel / 2 ^ k % 2 == 1

common_bit-error : (m : ℕ) → common_bit 32 msg_error m ≡ passes 0 m
unfolding common_bit
common_bit-error m = let e : m / 1 ≡ m = omega arith in rw (or-false (m % 2 == 1), e) refl

common_bit-info : (m : ℕ) → common_bit 32 msg_info m ≡ passes 1 m
unfolding common_bit
common_bit-info m = or-false (m / 2 % 2 == 1)

common_bit-dump : (m : ℕ) → common_bit 32 msg_dump m ≡ passes 2 m
unfolding common_bit
common_bit-dump m =
    let e : m / 2 / 2 ≡ m / 4 = omega arith in rw (or-false (m / 2 / 2 % 2 == 1), e) refl

-- The levels and the numbers of their bits.
pub data IsLevel : ℕ → ℕ → Type 0 where
  error : IsLevel msg_error 0
  info : IsLevel msg_info 1
  dump : IsLevel msg_dump 2

common_bit-level : {level k : ℕ} → IsLevel level k → (m : ℕ) → common_bit 32 level m ≡ passes k m
common_bit-level error m = common_bit-error m
common_bit-level info m = common_bit-info m
common_bit-level dump m = common_bit-dump m

level_traced : {level k : ℕ} → IsLevel level k → common_bit 32 level bttracelevel ≡ true
unfolding common_bit
level_traced error = refl
level_traced info = refl
level_traced dump = refl

-- A message of one of the levels that is shorter than the buffer is printed after the level was
-- set to `m` and then counted up `n` times just if the bit of its level is set in `m + n`, modulo
-- 2^32. So counting up does not add a level to those that are shown: it goes from errors alone (1)
-- to information alone (2).
pub print_msg-counted_up :
    {level k : ℕ} (old m n : ℕ) (func : Bytes) (line : ℕ) (text : Bytes)
    → IsLevel level k
    → m < 2 ^ 32
    → length (message func line text) < buffer_len
    → print_msg level func line text (counted_up n (bt_set_msglevel (pos m) old))
      ≡ some (if passes k ((m + n) % 2 ^ 32) then some (message func line text) else none)
unfolding print_msg bt_set_msglevel
print_msg-counted_up {level} {k} old m n func line text l h fits =
    let e : m % 2 ^ 32 ≡ m = omega arith in
    rw
      (
        level_traced l,
        lt→ltb _ _ fits,
        e,
        counted_up_lem n m h,
        common_bit-level l ((m + n) % 2 ^ 32),
      )
      refl
