-- ===== src/Message/Payloads.antt =====
-- The messages of src/peer_message.c that have a payload, in blocks of the size asked for.
use bt_server.Common.{
  ℕ, suc, ◌+◌, ◌%◌, ◌^◌, ◌<◌, ◌≡◌, refl, true, some, ◌++◌, arith, length, length-append, ne→==,
}
use bt_server.Libc.{Bytes}
use bt_server.Libc.Memory.{be32, be16, read_over}
use bt_server.Bcode.{Process}
use bt_server.Message.Steps.{fault, bytes_at, block_of, and_then}
use bt_server.Message.Frames.{after_mallocs, reserved_payload_ok, drop-five, new_block_ok}
use bt_server.Message.{
  move_payload, set_prefix_and_msgid, reserved_payload, generate_have_message,
  generate_request_message, generate_cancel_message, generate_port_message,
}

-- malloc never refuses, and gives exactly the bytes asked for.
pub record Exact (s : Process) : Type 0 where
  pub plenty : (k n : ℕ) → s.grant k n ≡ true
  pub size : (k n : ℕ) → length (s.content k n) ≡ n

-- Blocks of the size asked for exactly: reading past the payload is undefined.
unframed :
    (id : ℕ) (payload : Bytes) (s : Process)
    → Exact s
    → length payload + 5 < 2 ^ 32
    → and_then
        (reserved_payload (length payload) payload s)
        (λ t. set_prefix_and_msgid (suc (length payload)) id (some t))
      ≡ fault
unfolding set_prefix_and_msgid move_payload bytes_at block_of
unframed id payload s r h =
    let (front, rest, hf, hr, eq) =
      reserved_payload_ok payload s
        (record { plenty = r.plenty; room = λ k n. omega (arith, r.size k n) }) h in
    let size : (suc (length payload) + 4) % 2 ^ 32 ≡ suc (length payload) + 4 = omega arith in
    let short : length (payload ++ rest) < suc (length payload) =
      omega (arith, length-append payload rest, hr, r.size s.calls (5 + length payload)) in
    rw
      (
        eq,
        ne→== (suc (length payload)) 0 (λ q. absurd (omega arith)),
        size,
        new_block_ok (suc (length payload) + 4) (after_mallocs 1 (after_mallocs 1 s)) r.plenty,
        drop-five front (payload ++ rest) hf,
        read_over (suc (length payload)) (payload ++ rest) short,
      )
      refl

-- With blocks of exactly the size asked for, the generators of have, request, cancel and port
-- messages all run into undefined behaviour: set_prefix_and_msgid tests the room with `>`, moves
-- the payload though five bytes are enough for the prefix and the id, and copies one byte more than
-- the payload has, from behind the old block.
pub generators-overread :
    (i begin slice_len port : ℕ) (s : Process)
    → Exact s
    → (generate_have_message i s ≡ fault)
      × (generate_request_message i begin slice_len s ≡ fault)
      × (generate_cancel_message i begin slice_len s ≡ fault)
      × (generate_port_message port s ≡ fault)
unfolding generate_have_message generate_request_message generate_cancel_message
    generate_port_message
generators-overread i begin slice_len port s r =
    let slice : Bytes = be32 i ++ (be32 begin ++ be32 slice_len) in
    (
      unframed 4 (be32 i) s r (omega arith),
      unframed 6 slice s r (omega arith),
      unframed 8 slice s r (omega arith),
      unframed 9 (be16 port) s r (omega arith),
    )
