-- ===== src/Socket/Sync.antt =====
-- bt_sync_send of src/bt_socket.c.
use bt_server.Common.{
  ℕ, zero, suc, ◌+◌, ◌≤◌, ◌≡◌, refl, inl, inr, Bool, true, false, ◌||◌, Option, none, some, [],
  arith, ltb, ◌==◌, if◌then◌else◌, Bool-cases, length, take,
}
use bt_server.Libc.{Bytes}
use bt_server.Libc.Memory.{read, read_lem}
use bt_server.Socket.{
  Reply, ok, err, Init, opened, failed, SendAll, sent, bt_ipproto_tcp, bt_ipproto_udp, eintr,
  eaddrinuse, eisconn, etimedout, einprogress, get_fd_by_port, init_socket, sendall, swapped,
}

-- From CONNECT_RETRY on: whether the sends follow, and the calls of connect made.
pub data Connect : Type 0 where
  connected : ℕ → Connect
  refused : ℕ → Connect
  spin : Connect

-- `connect k` is the errno of the call behind `k` others, or none; `retry` is `k` throughout.
unfoldable pub connect_retry : ℕ → (ℕ → Option ℕ) → ℕ → Connect
connect_retry zero connect k = spin
connect_retry (suc f) connect k =
    let again = connect_retry f connect (k + 1) in
    elim (connect k) [
      | none ↦ connected (k + 1)
      | some errno ↦
          if errno == eaddrinuse || errno == einprogress || errno == eisconn
          then connected (k + 1)
          else if errno == eintr || errno == etimedout
          then (if ltb 5 k then refused (k + 1) else again)
          else refused (k + 1)
    ]

-- Whether 0 or -1 was returned, the descriptor in use, the calls of connect, and the bytes that
-- were taken.
pub data Sync : Type 0 where
  returned : Bool → ℕ → ℕ → Bytes → Sync
  fault : Sync
  spin : Sync

-- The one `send` of a TCP socket; no error of it is passed on.
unfoldable pub send_now : (Bytes → Reply) → Bytes → ℕ → ℕ → ℕ → Sync
unfolding read
send_now send buf buflen fd k = elim (read buflen buf) [
  | none ↦ fault
  | some bs ↦ elim (send bs) [
    | err errno ↦ returned true fd k []
    | ok n ↦ returned true fd k (take n bs)
  ]
]

unfoldable pub send_on :
    ℕ → (ℕ → Option ℕ) → (Bytes → Reply) → (ℕ → Bytes → Reply) → Bytes → ℕ → ℕ → ℕ → Sync
unfolding connect_retry send_now sendall
send_on f connect send_tcp send_udp buf buflen flag fd =
    let tcp : Sync = elim (connect_retry f connect 0) [
      | connected k ↦ send_now send_tcp buf buflen fd k
      | refused k ↦ returned false fd k []
      | Connect.spin ↦ spin
    ] in
    let udp : Sync = elim (sendall f send_udp buf buflen) [
      | sent r n wire ↦ returned true fd 0 wire
      | SendAll.fault ↦ fault
      | SendAll.spin ↦ spin
    ] in
    if flag == bt_ipproto_tcp
    then tcp
    else if flag == bt_ipproto_udp
    then udp
    else returned true fd 0 []

-- `if ((fd == get_fd_by_port(…)) == 0)`, with `fd` still 0
unfoldable pub bt_sync_send :
    ℕ
    → (ℕ → Reply)
    → (ℕ → ℕ → Option ℕ)
    → (ℕ → Option ℕ)
    → (Bytes → Reply)
    → (ℕ → Bytes → Reply)
    → ℕ
    → Bytes
    → ℕ
    → ℕ
    → Sync
unfolding get_fd_by_port init_socket send_on
bt_sync_send f socket bind connect send_tcp send_udp sin_port buf buflen flag =
    let fd : ℕ = 0 in
    let equal : ℕ = if fd == get_fd_by_port (swapped sin_port) then 1 else 0 in
    let on_new : Sync = elim (init_socket f socket bind sin_port true flag) [
      | opened fd' port ↦ send_on f connect send_tcp send_udp buf buflen flag fd'
      | failed port left ↦ returned false fd 0 []
      | Init.spin ↦ spin
    ] in
    if equal == 0 then on_new else send_on f connect send_tcp send_udp buf buflen flag fd

-- The search for a connection ended after seven calls of connect or fewer.
pub data Connects : Connect → Type 0 where
  up : {k : ℕ} → k ≤ 7 → Connects (connected k)
  down : {k : ℕ} → k ≤ 7 → Connects (refused k)

Connects-if : (t : Bool) {x y : Connect} → Connects x → Connects y → Connects (if t then x else y)
Connects-if true hx hy = hx
Connects-if false hx hy = hy

again_or_down :
    (k : ℕ) (again : Connect)
    → k ≤ 6
    → (k ≤ 5 → Connects again)
    → Connects (if ltb 5 k then refused (k + 1) else again)
again_or_down k again h next = elim (Bool-cases (ltb 5 k)) [
  | inl e ↦ rw e (down (omega arith))
  | inr e ↦ let few : k ≤ 5 = ground arith in rw e (next few)
]

after_connect :
    (r : Option ℕ) (k : ℕ) (again : Connect)
    → k ≤ 6
    → (k ≤ 5 → Connects again)
    → Connects (elim r [
      | none ↦ connected (k + 1)
      | some errno ↦
          if errno == eaddrinuse || errno == einprogress || errno == eisconn
          then connected (k + 1)
          else if errno == eintr || errno == etimedout
          then (if ltb 5 k then refused (k + 1) else again)
          else refused (k + 1)
    ])
after_connect none k again h next = up (omega arith)
after_connect (some e) k again h next =
    Connects-if _ (up (omega arith))
      (Connects-if _ (again_or_down k again h next) (down (omega arith)))

connect_retry_bounded :
    (f : ℕ) (connect : ℕ → Option ℕ) (k : ℕ)
    → k ≤ 6
    → 7 ≤ f + k
    → Connects (connect_retry f connect k)
unfolding connect_retry
connect_retry_bounded zero connect k h hf = absurd (omega arith)
connect_retry_bounded (suc f) connect k h hf =
    after_connect (connect k) k (connect_retry f connect (k + 1)) h
      (λ few. connect_retry_bounded f connect (k + 1) (omega arith) (omega arith))

-- The call came back, worked on descriptor 0 and made at most seven calls of connect.
pub data OnZero : Sync → Type 0 where
  on_zero : {r : Bool} {k : ℕ} {wire : Bytes} → k ≤ 7 → OnZero (returned r 0 k wire)

send_now-OnZero :
    (send : Bytes → Reply) (buf : Bytes) (buflen k : ℕ)
    → buflen ≤ length buf
    → k ≤ 7
    → OnZero (send_now send buf buflen 0 k)
unfolding send_now
send_now-OnZero send buf buflen k h few =
    rw (send_now, read_lem buflen buf h) (either (send (take buflen buf)))
  where
    either :
        (r : Reply)
        → OnZero (elim r [
          | err errno ↦ returned true 0 k []
          | ok n ↦ returned true 0 k (take n (take buflen buf))
        ])
    either (ok n) = on_zero few
    either (err e) = on_zero few

tcp-OnZero :
    (c : Connect) (send : Bytes → Reply) (buf : Bytes) (buflen : ℕ)
    → buflen ≤ length buf
    → Connects c
    → OnZero (elim c [
      | connected k ↦ send_now send buf buflen 0 k
      | refused k ↦ returned false 0 k []
      | Connect.spin ↦ spin
    ])
tcp-OnZero (connected k) send buf buflen h (up few) = send_now-OnZero send buf buflen k h few
tcp-OnZero (refused k) send buf buflen h (down few) = on_zero few
tcp-OnZero Connect.spin send buf buflen h x = elim x [ ]

-- bt_sync_send over TCP, whatever the socket calls return: it comes back (fuel 7 is enough) after
-- at most seven calls of connect, and it never opens a socket but works on descriptor 0, since
-- `fd == get_fd_by_port(…)` compares where it should assign.
pub bt_sync_send-OnZero :
    (f : ℕ) (socket : ℕ → Reply) (bind : ℕ → ℕ → Option ℕ) (connect : ℕ → Option ℕ)
    (send_tcp : Bytes → Reply) (send_udp : ℕ → Bytes → Reply) (sin_port : ℕ) (buf : Bytes)
    (buflen : ℕ)
    → 7 ≤ f
    → buflen ≤ length buf
    → OnZero
        (bt_sync_send f socket bind connect send_tcp send_udp sin_port buf buflen bt_ipproto_tcp)
unfolding bt_sync_send get_fd_by_port send_on
bt_sync_send-OnZero f socket bind connect send_tcp send_udp sin_port buf buflen hf h =
    tcp-OnZero (connect_retry f connect 0) send_tcp buf buflen h
      (connect_retry_bounded f connect 0 (omega arith) (omega arith))

-- When the connection stands and the send fails, bt_sync_send returns 0 over TCP, though nothing
-- was sent.
bt_sync_send-lost :
    (f : ℕ) (socket : ℕ → Reply) (bind : ℕ → ℕ → Option ℕ) (connect : ℕ → Option ℕ)
    (send_tcp : Bytes → Reply) (send_udp : ℕ → Bytes → Reply) (sin_port : ℕ) (buf : Bytes)
    (buflen errno : ℕ)
    → buflen ≤ length buf
    → connect 0 ≡ none
    → send_tcp (take buflen buf) ≡ err errno
    → bt_sync_send (suc f) socket bind connect send_tcp send_udp sin_port buf buflen bt_ipproto_tcp
      ≡ returned true 0 1 []
unfolding bt_sync_send get_fd_by_port send_on send_now connect_retry
bt_sync_send-lost f socket bind connect send_tcp send_udp sin_port buf buflen errno h c s =
    rw (connect_retry, c, send_now, read_lem buflen buf h, s) refl
