-- ===== src/Socket/Ports.antt =====
-- The retries of init_socket in src/bt_socket.c.
use bt_server.Common.{
  ℕ, zero, suc, ◌+◌, ◌*◌, ◌/◌, ap, ◌%◌, ◌^◌, ◌<◌, ◌≡◌, refl, inl, inr, ◌⊎◌, Bool, true, Option,
  none, some, arith,
}
use bt_server.Socket.{
  opened, spin, Reply, ok, swapped, next_port, bind_retry, socket_retry, init_socket, eaddrinuse,
  enobufs, bt_ipproto_tcp, bt_ipproto_udp,
}

-- When the address is in use, the next port, in host order, is the old one in network order and the
-- old one in host order and five, modulo 2^16, for every port.
next_port_lem :
    (sin_port : ℕ)
    → sin_port < 2 ^ 16
    → swapped (next_port sin_port) ≡ (sin_port + (swapped sin_port + 5)) % 2 ^ 16
unfolding next_port
next_port_lem sin_port h = omega arith

-- The two bytes of a port after a step, from those before it: both depend on the sum only, to
-- which five is added in the byte that stands for more in network order.
abbrev after : ℕ → ℕ
after p = let sum = p / 256 + p % 256 in 256 * ((sum + 5) % 256) + (sum + (sum + 5) / 256) % 256

-- The port that is tried after `k` steps.
abbrev pub tried : ℕ → ℕ → ℕ
tried zero sin_port = sin_port
tried (suc k) sin_port = after (tried k sin_port)

after_bound : (p : ℕ) → after p < 2 ^ 16
after_bound p = omega arith

tried_bound : (k p : ℕ) → p < 2 ^ 16 → tried k p < 2 ^ 16
tried_bound zero p h = h
tried_bound (suc k) p h = after_bound (tried k p)

suc_add : (k : ℕ) → k + 1 ≡ suc k
suc_add k = omega arith

next_port-after : (p : ℕ) → p < 2 ^ 16 → next_port p ≡ after p
unfolding next_port
next_port-after p h = omega arith

-- The first `m` ports of the search are in use when bind is called with them, and the next one is
-- free.
pub record Crowded (bind : ℕ → ℕ → Option ℕ) (m sin_port : ℕ) : Type 0 where
  pub busy : (k : ℕ) → k < m → bind k (tried k sin_port) ≡ some eaddrinuse
  pub free : bind m (tried m sin_port) ≡ none

bind_retry-tried :
    (f : ℕ) (bind : ℕ → ℕ → Option ℕ) (fd k m n sin_port : ℕ)
    → sin_port < 2 ^ 16
    → Crowded bind n sin_port
    → k + m ≡ n
    → m < f
    → bind_retry f bind true fd k (tried k sin_port) ≡ opened fd (tried n sin_port)
unfolding bind_retry
bind_retry-tried zero bind fd k m n sin_port b c e h = absurd (omega arith)
bind_retry-tried (suc f) bind fd k zero n sin_port b c e h =
    let here : k ≡ n = omega arith in
    let free : bind k (tried k sin_port) ≡ none = rw here c.free in
    rw (bind_retry, free) (ap (λ x. opened fd (tried x sin_port)) here)
bind_retry-tried (suc f) bind fd k (suc m) n sin_port b c e h =
    rw
      (
        bind_retry,
        c.busy k (omega arith),
        next_port-after (tried k sin_port) (tried_bound k sin_port b),
        suc_add k,
      )
      (bind_retry-tried f bind fd (suc k) m n sin_port b c (omega arith) (omega arith))

-- With a TCP or UDP socket at the first call, and with the first `m` ports of the search in use when
-- they are tried and the one behind them free, init_socket with `retry` ends (fuel above m + 1 is
-- enough) with the socket bound to that port. The search is by sums of bytes: from a port with the
-- bytes a and b it goes to the bytes (a + b + 5) % 256 and (a + b + (a + b + 5) / 256) % 256.
pub init_socket-tried :
    (f : ℕ) (socket : ℕ → Reply) (bind : ℕ → ℕ → Option ℕ) (fd m sin_port flag : ℕ)
    → sin_port < 2 ^ 16
    → (flag ≡ bt_ipproto_tcp) ⊎ (flag ≡ bt_ipproto_udp)
    → socket 0 ≡ ok fd
    → Crowded bind m sin_port
    → m + 1 < f
    → init_socket f socket bind sin_port true flag ≡ opened fd (tried m sin_port)
unfolding init_socket socket_retry
init_socket-tried zero socket bind fd m sin_port flag b t s c h = absurd (omega arith)
init_socket-tried (suc f) socket bind fd m sin_port flag b t s c h =
    let step = bind_retry-tried f bind fd 0 m m sin_port b c (omega arith) (omega arith) in
    elim t [ inl e ↦ rw (e, socket_retry, s) step | inr e ↦ rw (e, socket_retry, s) step ]

bind_retry-spin :
    (f : ℕ) (bind : ℕ → ℕ → Option ℕ) (retry : Bool) (fd k sin_port : ℕ)
    → ((j p : ℕ) → bind j p ≡ some enobufs)
    → bind_retry f bind retry fd k sin_port ≡ spin
unfolding bind_retry
bind_retry-spin zero bind retry fd k sin_port h = refl
bind_retry-spin (suc f) bind retry fd k sin_port h =
    rw (bind_retry, h k sin_port) (bind_retry-spin f bind retry fd (k + 1) sin_port h)

-- With a TCP or UDP socket at the first call, and while bind reports ENOBUFS, init_socket goes on for
-- ever, with `retry` or without: however much fuel it is given, it is still trying.
pub init_socket_spin :
    (f : ℕ) (socket : ℕ → Reply) (bind : ℕ → ℕ → Option ℕ) (retry : Bool) (fd sin_port flag : ℕ)
    → (flag ≡ bt_ipproto_tcp) ⊎ (flag ≡ bt_ipproto_udp)
    → socket 0 ≡ ok fd
    → ((j p : ℕ) → bind j p ≡ some enobufs)
    → init_socket f socket bind sin_port retry flag ≡ spin
unfolding init_socket socket_retry
init_socket_spin zero socket bind retry fd sin_port flag t s h = elim t [
  | inl e ↦ rw e refl
  | inr e ↦ rw e refl
]
init_socket_spin (suc f) socket bind retry fd sin_port flag t s h =
    let step = bind_retry-spin f bind retry fd 0 sin_port h in
    elim t [ inl e ↦ rw (e, socket_retry, s) step | inr e ↦ rw (e, socket_retry, s) step ]
