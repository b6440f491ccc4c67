-- ===== src/Trace/Tests.antt =====
-- Messages of src/bttrace.c.
use bt_server.Common.{◌≡◌, refl, false, none, some, arith, pos}
use bt_server.Libc.{codes}
use bt_server.Bcode.Encode.{decimal}
use bt_server.Trace.{
  msg_error, print_msg, bt_set_msglevel, bt_inc_msglevel, bt_get_msglevel, common_bit,
  initial_msglevel,
}
use bt_server.Trace.Shown.{counted_up, error, print_msg-counted_up}

-- All levels are shown at first, and none after one more.
counted_past : common_bit 32 msg_error (bt_get_msglevel (bt_inc_msglevel initial_msglevel)) ≡ false
unfolding common_bit bt_get_msglevel bt_inc_msglevel
counted_past = refl

-- Errors are no longer shown once the level is counted up from 1 to 2.
print_msg-counted_up_example :
    print_msg msg_error (codes "main") 12 (codes "hello") (counted_up 1 (bt_set_msglevel (pos 1) 7))
    ≡ some none
unfolding decimal
print_msg-counted_up_example =
    print_msg-counted_up 7 1 1 (codes "main") 12 (codes "hello") error (omega arith) (omega arith)
