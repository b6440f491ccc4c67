-- ===== src/Socket/Late.antt =====
-- The references of src/bt_socket.c are released one call late.
use bt_server.Common.{
  ℕ, ◌-◌, ◌≡◌, ◌≢◌, refl, false, none, some, List, [], ◌∷◌, ◌++◌, ==-refl, ne→==, ◌==◌, All,
}
use bt_server.Libc.{Bytes}
use bt_server.Socket.Buffers.{
  SendBuf, SendUnit, Sending, find_send_buf, get_send_buf, del_from, del_send_buf,
  del_send_buf_ref_count, get_send_unit, unlink_unit, free_send_unit,
}

-- No entry is at the address.
abbrev pub NoBuf : ℕ → List SendBuf → Type 0
NoBuf p = All (λ b. b.address ≢ p)

abbrev pub NoUnit : ℕ → List SendUnit → Type 0
NoUnit p = All (λ u. u.address ≢ p)

-- The references of the last entry.
del_from-last :
    (p : ℕ) (bufs : List SendBuf) (b : SendBuf)
    → NoBuf p bufs
    → b.address ≡ p
    → (b.ref_count == 0) ≡ false
    → del_from p (bufs ++ b ∷ []) ≡ some (bufs ++ record b { ref_count = b.ref_count - 1 } ∷ [], [])
unfolding del_from del_send_buf_ref_count
del_from-last p [] b a e c = rw (e, ==-refl p, c) refl
del_from-last p (x ∷ bufs) b (n, a) e c =
    rw (ne→== x.address p n, del_from-last p bufs b a e c) refl

unlink_unit-last :
    (p : ℕ) (units : List SendUnit) (u : SendUnit)
    → NoUnit p units
    → u.address ≡ p
    → (u.ref_count == 0) ≡ false
    → unlink_unit p (units ++ u ∷ [])
      ≡ some (units ++ record u { ref_count = u.ref_count - 1 } ∷ [], none)
unfolding unlink_unit
unlink_unit-last p [] u a e c = rw (e, ==-refl p, c) refl
unlink_unit-last p (x ∷ units) u (n, a) e c =
    rw (ne→== x.address p n, unlink_unit-last p units u a e c) refl

unlink_unit-gone :
    (p : ℕ) (units : List SendUnit) (u : SendUnit)
    → NoUnit p units
    → u.address ≡ p
    → u.ref_count ≡ 0
    → unlink_unit p (units ++ u ∷ []) ≡ some (units, some u)
unfolding unlink_unit
unlink_unit-gone p [] u a e c = rw (e, ==-refl p, c) refl
unlink_unit-gone p (x ∷ units) u (n, a) e c =
    rw (ne→== x.address p n, unlink_unit-gone p units u a e c) refl

-- The unit and its buffer at the ends of the lists, with `n` and `m` references.
abbrev pub linked : SendUnit → SendBuf → ℕ → ℕ → Sending → Sending
linked u b n m s = record s {
  send_buf_list = s.send_buf_list ++ record b { ref_count = m } ∷ [];
  send_unit_list = s.send_unit_list ++ record u { buf = some b.address; ref_count = n } ∷ [];
}

-- A call of get_send_unit whose mallocs succeed, at addresses that are in use by no unit and no
-- buffer, and with contents that no buffer of the list has, links a unit and a buffer with one
-- reference each. After one call of free_send_unit the unit is still linked, without references;
-- the second unlinks and frees it, but leaves its buffer in the list, without references and not
-- freed.
pub free_send_unit_late :
    (memory : ℕ → Bytes) (u : SendUnit) (b : SendBuf) (s : Sending)
    → NoUnit u.address s.send_unit_list
    → NoBuf b.address s.send_buf_list
    → find_send_buf memory b.buf b.buflen s.send_buf_list ≡ none
    → (get_send_unit memory
          (some u.address)
          (some b.address)
          u.dest
          u.source
          b.buf
          b.buflen
          u.cb
          u.arg
          u.timeout
          u.retry
          s
        ≡ (some u.address, linked u b 1 1 s))
      × (free_send_unit (some u.address) (linked u b 1 1 s) ≡ some (linked u b 0 1 s))
      × (free_send_unit (some u.address) (linked u b 0 1 s)
          ≡ some (record s {
            send_buf_list = s.send_buf_list ++ record b { ref_count = 0 } ∷ [];
            freed = u.address ∷ s.freed;
          }))
unfolding get_send_unit get_send_buf free_send_unit del_send_buf
free_send_unit_late memory u b s nu nb f =
    let unit : ℕ → SendUnit = λ n. record u { buf = some b.address; ref_count = n } in
    (
      rw (get_send_buf, f) refl,
      rw (free_send_unit, unlink_unit-last u.address s.send_unit_list (unit 1) nu refl refl) refl,
      rw
          (
            free_send_unit,
            unlink_unit-gone u.address s.send_unit_list (unit 0) nu refl refl,
            del_send_buf,
            del_from-last b.address s.send_buf_list (record b { ref_count = 1 }) nb refl refl,
          )
          refl,
    )
