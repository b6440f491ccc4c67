-- ===== src/Socket.antt =====
-- src/bt_socket.c and include/bt_socket.h: sockets and synchronous sends. What the socket calls
-- return is a parameter, for each call by its number.
pub mod Buffers
pub mod Late
pub mod Send
pub mod Sync
pub mod Ports
mod Tests
use bt_server.Common.{
  ℕ, zero, suc, ◌+◌, ◌-◌, ◌*◌, ◌/◌, ◌%◌, ◌^◌, Bool, true, false, ◌&&◌, ◌||◌, Option, none, some, [],
  ◌++◌, ltb, ◌==◌, if◌then◌else◌, take, drop,
}
use bt_server.Libc.{Bytes}
use bt_server.Libc.Memory.{read}

abbrev pub bt_ipproto_tcp : ℕ
bt_ipproto_tcp = 100

abbrev pub bt_ipproto_udp : ℕ
bt_ipproto_udp = 101

-- The values of errno that the file tests, on Linux.
abbrev pub eintr : ℕ
eintr = 4

abbrev pub eaddrinuse : ℕ
eaddrinuse = 98

abbrev pub enobufs : ℕ
enobufs = 105

abbrev pub eisconn : ℕ
eisconn = 106

abbrev pub etimedout : ℕ
etimedout = 110

abbrev pub einprogress : ℕ
einprogress = 115

abbrev pub o_nonblock : ℕ
o_nonblock = 2048

-- A call that returns a number, or -1 with this errno.
pub data Reply : Type 0 where
  ok : ℕ → Reply
  err : ℕ → Reply

unfoldable pub get_fd_by_port : ℕ → ℕ
get_fd_by_port port = 0

-- What F_SETFD is given, from what F_GETFD returned.
unfoldable pub set_nonblock : ℕ → ℕ
set_nonblock status = if status / o_nonblock % 2 == 1 then status else status + o_nonblock

unfoldable pub set_block : ℕ → ℕ
set_block status = if status / o_nonblock % 2 == 1 then status - o_nonblock else status + o_nonblock

-- `htons` and `ntohs` on a little-endian machine
abbrev pub swapped : ℕ → ℕ
swapped p = p % 256 * 256 + p / 256 % 256

-- The port in network order for the next bind: an unsigned short all along.
unfoldable pub next_port : ℕ → ℕ
next_port sin_port = swapped ((sin_port + (swapped sin_port + 5)) % 2 ^ 16)

-- `source->sin_port` after init_socket, with the descriptor that it returned, or -1 and the socket
-- that it opened and left open; `spin` says that the fuel ran out.
pub data Init : Type 0 where
  opened : ℕ → ℕ → Init
  failed : ℕ → Option ℕ → Init
  spin : Init

-- From BIND_RETRY on. `bind k p` is the errno of the k-th call, for the port p, or none.
unfoldable pub bind_retry : ℕ → (ℕ → ℕ → Option ℕ) → Bool → ℕ → ℕ → ℕ → Init
unfolding next_port
bind_retry zero bind retry fd k sin_port = spin
bind_retry (suc f) bind retry fd k sin_port =
    let moved = bind_retry f bind retry fd (k + 1) (next_port sin_port) in
    let again = bind_retry f bind retry fd (k + 1) sin_port in
    let give_up : Init = failed sin_port (some fd) in
    elim (bind k sin_port) [
      | none ↦ opened fd sin_port
      | some errno ↦
          if errno == eaddrinuse
          then (if retry then moved else give_up)
          else if errno == enobufs
          then again
          else give_up
    ]

-- From SOCKET_RETRY on, for one of the two protocols.
unfoldable pub socket_retry : ℕ → (ℕ → Reply) → (ℕ → ℕ → Option ℕ) → Bool → ℕ → ℕ → Init
unfolding bind_retry
socket_retry zero socket bind retry k sin_port = spin
socket_retry (suc f) socket bind retry k sin_port =
    let again = socket_retry f socket bind retry (k + 1) sin_port in
    elim (socket k) [
      | ok fd ↦ bind_retry f bind retry fd 0 sin_port
      | err errno ↦ if retry && errno == enobufs then again else failed sin_port none
    ]

unfoldable pub init_socket : ℕ → (ℕ → Reply) → (ℕ → ℕ → Option ℕ) → ℕ → Bool → ℕ → Init
unfolding socket_retry
init_socket f socket bind sin_port retry flag =
    if flag == bt_ipproto_tcp || flag == bt_ipproto_udp
    then socket_retry f socket bind retry 0 sin_port
    else failed sin_port none

-- What sendall returned (0 or -1), `*len` and the bytes that send() took. `fault` is the use of `n`
-- before a value was assigned to it, or a read past the buffer.
pub data SendAll : Type 0 where
  sent : Bool → ℕ → Bytes → SendAll
  fault : SendAll
  spin : SendAll

-- The loop of sendall behind `k` calls of send. `n_set` says that `n` has a value.
unfoldable pub send_loop : ℕ → (ℕ → Bytes → Reply) → Bytes → ℕ → ℕ → ℕ → ℕ → Bool → Bytes → SendAll
unfolding read
send_loop zero send buf len k total bytesleft n_set wire = spin
send_loop (suc f) send buf len k total bytesleft n_set wire =
    let offered = read bytesleft (drop total buf) in
    let round : SendAll = elim offered [
      | none ↦ fault
      | some bs ↦ elim (send k bs) [
        | err errno ↦ sent false total wire
        | ok n ↦
            send_loop f send buf len (k + 1) (total + n) (bytesleft - n) true (wire ++ take n bs)
      ]
    ] in
    if ltb total len then round else if n_set then sent true total wire else fault

unfoldable pub sendall : ℕ → (ℕ → Bytes → Reply) → Bytes → ℕ → SendAll
unfolding send_loop
sendall f send buf len = send_loop f send buf len 0 0 len false []
