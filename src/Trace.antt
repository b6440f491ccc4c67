-- ===== src/Trace.antt =====
-- src/bttrace.c and include/bttrace.h: messages behind a mask of levels, in a build with _BTDEBUG.
pub mod Shown
mod Tests
use bt_server.Common.{
  ℕ, zero, suc, ◌+◌, ◌/◌, ◌%◌, ◌^◌, Bool, false, ◌&&◌, ◌||◌, Option, none, some, ◌++◌, ltb, ◌==◌,
  if◌then◌else◌, length, ℤ, to_u32,
}
use bt_server.Libc.{Bytes, codes}
use bt_server.Bcode.Encode.{decimal}

-- enum MSGLEVEL
abbrev pub msg_error : ℕ
msg_error = 1

abbrev pub msg_info : ℕ
msg_info = 2

abbrev pub msg_dump : ℕ
msg_dump = 4

-- BTTRACELEVEL, MSG_ERROR | MSG_INFO | MSG_DUMP
abbrev pub bttracelevel : ℕ
bttracelevel = 7

-- `static unsigned int msglevel`
abbrev pub initial_msglevel : ℕ
initial_msglevel = 7

unfoldable pub bt_inc_msglevel : ℕ → ℕ
bt_inc_msglevel msglevel = (msglevel + 1) % 2 ^ 32

unfoldable pub bt_set_msglevel : ℤ → ℕ → ℕ
bt_set_msglevel level msglevel = to_u32 level

unfoldable pub bt_get_msglevel : ℕ → ℕ
bt_get_msglevel msglevel = msglevel

-- `(a & b) != 0` for numbers of `n` bits
unfoldable pub common_bit : ℕ → ℕ → ℕ → Bool
common_bit zero a b = false
common_bit (suc n) a b = (a % 2 == 1 && b % 2 == 1) || common_bit n (a / 2) (b / 2)

-- `char buffer[2000]`
abbrev pub buffer_len : ℕ
buffer_len = 2000

-- What is written to the buffer, without the NUL: `text` stands for what vsprintf makes of the format
-- and its arguments.
abbrev pub message : Bytes → ℕ → Bytes → Bytes
message func line text =
    codes "BT-Server: " ++ func ++ codes "(" ++ decimal line ++ codes ") " ++ text

-- With its NUL the message stays within the buffer.
unfoldable pub fits : Bytes → ℕ → Bytes → Bool
fits func line text = ltb (length (message func line text)) buffer_len

-- The text that is printed, if any; `none` is a write past the buffer.
unfoldable pub print_msg : ℕ → Bytes → ℕ → Bytes → ℕ → Option (Option Bytes)
unfolding common_bit fits
print_msg level func line text msglevel =
    if common_bit 32 level bttracelevel
    then if fits func line text
      then some (if common_bit 32 level msglevel then some (message func line text) else none)
      else none
    else some none
