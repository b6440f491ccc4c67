-- ===== src/Peer/Deal.antt =====
-- deal_message and send_message of src/peer_message.c against the wire format.
use bt_server.Common.{
  ℕ, zero, suc, ◌+◌, ◌%◌, ◌^◌, ◌≤◌, ◌<◌, ◌≡◌, refl, inl, inr, true, false, none, some, [], ◌∷◌,
  ◌++◌, arith, ◌==◌, ne→==, Bool-cases, length, drop, take, length-drop,
}
use bt_server.Libc.{Bytes}
use bt_server.Libc.Memory.{be32, read_lem}
use bt_server.Bcode.{BString}
use bt_server.Bcode.Objects.{b_string_get, b_string_get_length}
use bt_server.Timer.{TimerList, bt_timer_update}
use bt_server.Socket.{Reply, ok, err}
use bt_server.Message.Frames.{frame, sent}
use bt_server.Peer.{Peer, deal_message, deal_keep_alive, byte_at, send_message}

drop-behind : (pre xs : Bytes) (k n : ℕ) → n ≡ length pre + k → drop n (pre ++ xs) ≡ drop k xs
drop-behind [] xs k n h = let same : n ≡ k = omega arith in rw same refl
drop-behind (x ∷ pre) xs k zero h = absurd (omega arith)
drop-behind (x ∷ pre) xs k (suc n) h = drop-behind pre xs k n (omega arith)

-- A received frame, at any place of its block, leaves the timers as they are, whatever its id
-- and payload are; the sizes are below 2^32.
deal_message-frame :
    (ptr : Peer) (pre body rest : Bytes) (id : ℕ) (s : TimerList)
    → length body + 5 < 2 ^ 32
    → deal_message ptr
        (record {
          head = some (pre ++ (frame id body ++ rest));
          off = length pre;
          len = 5 + length body;
        })
        s
      ≡ some s
unfolding deal_message byte_at b_string_get b_string_get_length
deal_message-frame ptr pre body rest id s h =
    let size : (5 + length body + 4294967292) % 2 ^ 32 ≡ suc (length body) = omega arith in
    let ne = ne→== (suc (length body)) 0 (λ q. absurd (omega arith)) in
    elim (Bool-cases (id == 0)) [
      | inl e ↦
          rw
            (
              deal_message,
              byte_at,
              drop-behind pre (frame id body ++ rest) 4 (length pre + 4) refl,
              e,
              size,
              ne,
            )
            refl
      | inr e ↦
          rw
            (
              deal_message,
              byte_at,
              drop-behind pre (frame id body ++ rest) 4 (length pre + 4) refl,
              e,
            )
            refl
    ]

-- A keep-alive message is four bytes long, and deal_message reads the fifth. If the block ends
-- there, that is undefined behaviour; otherwise whatever byte follows decides whether the peer's
-- timer is restarted: it is behind a 0, and not behind any other byte.
pub deal_message-keep_alive :
    (ptr : Peer) (pre rest : Bytes) (p c : ℕ) (s : TimerList)
    → ptr.rcv_keep_alive ≡ some p
    → let keep_alive : Bytes → BString =
        λ behind. record { head = some (pre ++ (be32 0 ++ behind)); off = length pre; len = 4 } in
      (deal_message ptr (keep_alive []) s ≡ none)
      × (deal_message ptr (keep_alive (0 ∷ rest)) s ≡ bt_timer_update p s)
      × (deal_message ptr (keep_alive (suc c ∷ rest)) s ≡ some s)
unfolding deal_message byte_at b_string_get b_string_get_length deal_keep_alive
deal_message-keep_alive ptr pre rest p c s h =
    let fifth : (behind : Bytes) → drop (length pre + 4) (pre ++ (be32 0 ++ behind)) ≡ behind =
      λ behind. drop-behind pre (be32 0 ++ behind) 4 (length pre + 4) refl in
    (
      rw (deal_message, byte_at, fifth []) refl,
      rw (deal_message, byte_at, fifth (0 ∷ rest), deal_keep_alive, h) refl,
      rw (deal_message, byte_at, fifth (suc c ∷ rest), ne→== (suc c) 0 (λ q. absurd (omega arith)))
          refl,
    )

-- send_message gives send() the bytes of the message and reports -1 exactly when send() failed;
-- a send that took only some of the bytes counts as success. The block holds the message.
send_message_lem :
    (send : Bytes → Reply) (block : Bytes) (off len : ℕ)
    → off + len ≤ length block
    → let t : BString = record { head = some block; off = off; len = len } in
      send_message send t ≡ some (elim (send (sent t)) [ ok n ↦ true | err errno ↦ false ])
unfolding send_message b_string_get b_string_get_length
send_message_lem send block off len h =
    let enough : len ≤ length (drop off block) = omega (arith, length-drop off block) in
    rw (send_message, read_lem len (drop off block) enough)
      (either (send (take len (drop off block))))
  where
    either :
        (r : Reply)
        → elim r [ ok n ↦ some true | err errno ↦ some false ]
          ≡ some (elim r [ ok n ↦ true | err errno ↦ false ])
    either (ok n) = refl
    either (err e) = refl
