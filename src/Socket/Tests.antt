-- ===== src/Socket/Tests.antt =====
-- The theorems on sockets at work.
use bt_server.Common.{
  ◌+◌, ◌*◌, ◌⊎◌, inl, ◌<◌, ◌==◌, ℕ, suc, ◌≡◌, refl, inr, true, false, Bool, Option, none, some, [],
  ◌∷◌, ◌++◌, arith, length, ltb, if◌then◌else◌,
}
use bt_server.Libc.{Bytes}
use bt_server.Socket.{
  Reply, ok, err, opened, Init, init_socket, sendall, bt_ipproto_tcp, bt_ipproto_udp, eaddrinuse,
  enobufs, eintr,
}
use bt_server.Socket.Ports.{Crowded, init_socket-tried, init_socket_spin}
use bt_server.Socket.Send.{Takes, taken, broken, Steps, Sends, sendall_total}
use bt_server.Socket.Sync.{OnZero, bt_sync_send, bt_sync_send-OnZero}
use bt_server.Socket.Buffers.{
  SendBuf, SendUnit, Sending, get_send_unit, free_send_unit, find_send_buf,
}
use bt_server.Socket.Late.{linked, free_send_unit_late}

-- One byte at a time, and an error at the fourth call.
abbrev send_one : ℕ → Bytes → Reply
send_one k [] = err eintr
send_one k (c ∷ bs) = if ltb k 3 then ok 1 else err eintr

one_or_error : (t : Bool) (n : ℕ) → Takes (suc n) (if t then ok 1 else err eintr)
one_or_error true n = taken (omega arith) (omega arith)
one_or_error false n = broken

send_one-Steps : Steps send_one
send_one-Steps k [] = broken
send_one-Steps k (c ∷ bs) = one_or_error (ltb k 3) (length bs)

sendall_total_example :
    Sends (1 ∷ 2 ∷ 3 ∷ 4 ∷ 5 ∷ []) 4 (sendall 5 send_one (1 ∷ 2 ∷ 3 ∷ 4 ∷ 5 ∷ []) 4)
sendall_total_example =
    sendall_total 5 send_one (1 ∷ 2 ∷ 3 ∷ 4 ∷ 5 ∷ []) 4 send_one-Steps (omega arith) (omega arith)
      (omega arith)

-- In use at two ports: from the bytes 184 and 34 the search goes to 223 and 218, and then to 190 and
-- 186.
abbrev busy_twice : ℕ → ℕ → Option ℕ
busy_twice k p = if p == 190 * 256 + 186 then none else some eaddrinuse

lt_two : (k : ℕ) → k < 2 → (k ≡ 0) ⊎ (k ≡ 1)
lt_two k h = ground arith

busy_twice-Crowded : Crowded busy_twice 2 47138
busy_twice-Crowded = record {
  busy = λ k h. elim (lt_two k h) [ inl e ↦ rw e refl | inr e ↦ rw e refl ];
  free = refl;
}

init_socket-tried_example :
    init_socket 4 (λ k. ok 3) busy_twice 47138 true bt_ipproto_udp ≡ opened 3 (190 * 256 + 186)
init_socket-tried_example =
    init_socket-tried 4 (λ k. ok 3) busy_twice 3 2 47138 bt_ipproto_udp (omega arith) (inr refl)
      refl busy_twice-Crowded (omega arith)

init_socket_spin_example :
    init_socket 100 (λ k. ok 3) (λ j p. some enobufs) 47138 false bt_ipproto_udp ≡ Init.spin
init_socket_spin_example =
    init_socket_spin 100 (λ k. ok 3) (λ j p. some enobufs) false 3 47138 bt_ipproto_udp (inr refl)
      refl (λ j p. refl)

-- Interrupted at every attempt.
bt_sync_send-OnZero_example : OnZero (
    bt_sync_send 7
      (λ k. ok 3)
      (λ k p. none)
      (λ k. some eintr)
      (λ bs. ok (length bs))
      send_one
      47138
      (1 ∷ 2 ∷ [])
      2
      bt_ipproto_tcp)
bt_sync_send-OnZero_example =
    bt_sync_send-OnZero 7 (λ k. ok 3) (λ k p. none) (λ k. some eintr) (λ bs. ok (length bs))
      send_one 47138 (1 ∷ 2 ∷ []) 2 (omega arith) (omega arith)

-- Every pointer sees the same bytes.
abbrev memory : ℕ → Bytes
memory p = 7 ∷ 7 ∷ 7 ∷ 7 ∷ []

abbrev unit : SendUnit
unit = record {
  address = 100;
  dest = 1;
  source = 2;
  buf = none;
  cb = 3;
  arg = 4;
  timeout = 5;
  retry = 6;
  ref_count = 0;
}

abbrev buffer : SendBuf
buffer = record { address = 200; buf = 300; buflen = 4; ref_count = 0 }

-- Another buffer, of another length.
abbrev sending : Sending
sending = record {
  send_buf_list = record { address = 201; buf = 301; buflen = 3; ref_count = 1 } ∷ [];
  send_unit_list = [];
  freed = [];
}

free_send_unit_late_example :
    (get_send_unit memory (some 100) (some 200) 1 2 300 4 3 4 5 6 sending
      ≡ (some 100, linked unit buffer 1 1 sending))
    × (free_send_unit (some 100) (linked unit buffer 1 1 sending)
        ≡ some (linked unit buffer 0 1 sending))
    × (free_send_unit (some 100) (linked unit buffer 0 1 sending)
        ≡ some (record sending {
          send_buf_list = sending.send_buf_list ++ buffer ∷ [];
          freed = 100 ∷ [];
        }))
unfolding find_send_buf
free_send_unit_late_example =
    free_send_unit_late memory unit buffer sending tt ((λ q. absurd (omega arith)), tt) refl
