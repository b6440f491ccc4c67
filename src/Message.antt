-- ===== src/Message.antt =====
-- src/peer_message.c: the messages of the peer protocol, built in `struct b_string` buffers.
pub mod PeerMessage
pub mod Steps
pub mod Frames
pub mod Control
pub mod Handshake
pub mod Payloads
pub mod Piece
mod Tests
use bt_server.Common.{
  ℕ, ◌+◌, ◌-◌, ◌%◌, ◌^◌, Bool, Option, none, some, [], ◌∷◌, ◌++◌, ltb, ◌==◌, if◌then◌else◌, drop,
  replicate,
}
use bt_server.Libc.{Bytes}
use bt_server.Libc.Memory.{be32, be16}
use bt_server.Bcode.{BString, Process}
use bt_server.Bcode.Objects.{b_string_alloc, b_string_free, empty_string, free}
use Steps.{
  Step, ok, fault, M, pure, ◌>>=◌, new_block, new_string, memcpy_to, bytes_at, block_of, modify,
}

abbrev pub handshake_message_len : ℕ
handshake_message_len = 68

abbrev pub default_pstrlen : ℕ
default_pstrlen = 19

-- "BitTorrent protocol"
abbrev pub default_pstr : Bytes
default_pstr =
    b'B' ∷ b'i' ∷ b't' ∷ b'T' ∷ b'o' ∷ b'r' ∷ b'r' ∷ b'e' ∷ b'n' ∷ b't' ∷ b' ' ∷ b'p' ∷ b'r' ∷ b'o'
    ∷ b't' ∷ b'o' ∷ b'c' ∷ b'o' ∷ b'l' ∷ []

abbrev pub reserved_len : ℕ
reserved_len = 8

abbrev pub hash_len : ℕ
hash_len = 20

abbrev pub peer_id_len : ℕ
peer_id_len = 20

abbrev pub msg_id_len : ℕ
msg_id_len = 1

abbrev pub len_prefix_size : ℕ
len_prefix_size = 4

-- Sums of unsigned ints.
abbrev pub u32 : ℕ → ℕ
u32 n = n % 2 ^ 32

-- Seen from a `char *` argument: `none` is NULL, otherwise the bytes from there to the end of the
-- object.
abbrev pub Pointer : Type 0
Pointer = Option Bytes

unfoldable pub fill_handshake : Bytes → Bytes → BString → M (Option BString)
fill_handshake info_hash peer_id t = do
  buf ← new_block handshake_message_len
  b₀ ← memcpy_to 0 (replicate handshake_message_len 0) buf
  b₁ ← memcpy_to 0 (default_pstrlen ∷ []) b₀
  b₂ ← memcpy_to 1 default_pstr b₁
  b₃ ← memcpy_to (1 + default_pstrlen) (replicate reserved_len 0) b₂
  hash ← bytes_at hash_len info_hash
  b₄ ← memcpy_to (1 + default_pstrlen + reserved_len) hash b₃
  id ← bytes_at peer_id_len peer_id
  b₅ ← memcpy_to (1 + default_pstrlen + reserved_len + hash_len) id b₄
  pure (some (record t { head = some b₅; off = 0; len = handshake_message_len }))

unfoldable pub generate_handshake_message : Pointer → Pointer → M (Option BString)
generate_handshake_message (some info_hash) (some peer_id) s = elim (b_string_alloc s).0 [
  | none ↦ ok none (b_string_alloc s).1
  | some t ↦ fill_handshake info_hash peer_id t (b_string_alloc s).1
]
generate_handshake_message _ _ s = ok none s

-- The end of set_prefix_and_msgid: the length prefix and the id go to `off` in the block, and
-- `data` points there.
unfoldable pub set_prefix : ℕ → ℕ → ℕ → Bytes → BString → M BString
set_prefix len_prefix message_id off buf t = do
  b ← memcpy_to off (be32 len_prefix) buf
  b' ← memcpy_to (off + len_prefix_size) (if len_prefix == 0 then [] else message_id ∷ []) b
  pure (record t { head = some b'; off = off; len = u32 (len_prefix + len_prefix_size) })

-- Without enough room before the payload, a new block: the copy starts behind the id, and takes
-- `len_prefix` bytes, which count the id too.
unfoldable pub move_payload : ℕ → ℕ → BString → M Bytes
move_payload len_prefix id_len t = do
  buf ← new_block (u32 (len_prefix + len_prefix_size))
  old ← block_of t
  payload ← bytes_at len_prefix (drop t.off old)
  moved ← memcpy_to (len_prefix_size + id_len) payload buf
  _ ← modify free
  pure moved

unfoldable pub set_prefix_and_msgid : ℕ → ℕ → Option BString → M BString
set_prefix_and_msgid len_prefix message_id none = do
  buf ← new_block (u32 (len_prefix + len_prefix_size))
  t ← new_string buf (u32 (len_prefix + len_prefix_size)) 0
  set_prefix len_prefix message_id 0 buf t
set_prefix_and_msgid len_prefix message_id (some t) =
    let id_len = if len_prefix == 0 then 0 else msg_id_len in
    let in_place = do
      buf ← block_of t
      set_prefix len_prefix message_id (t.off - (len_prefix_size + id_len)) buf t
    in let moved = do
      buf ← move_payload len_prefix id_len t
      set_prefix len_prefix message_id 0 buf t
      in if ltb (len_prefix_size + id_len) t.off then in_place else moved

unfoldable pub generate_keep_alive_message : M BString
generate_keep_alive_message = set_prefix_and_msgid 0 PeerMessage.keep_alive none

unfoldable pub generate_choke_message : M BString
generate_choke_message = set_prefix_and_msgid msg_id_len PeerMessage.choke none

unfoldable pub generate_unchoke_message : M BString
generate_unchoke_message = set_prefix_and_msgid msg_id_len PeerMessage.unchoke none

unfoldable pub generate_interested_message : M BString
generate_interested_message = set_prefix_and_msgid msg_id_len PeerMessage.interested none

unfoldable pub generate_not_interested_message : M BString
generate_not_interested_message = set_prefix_and_msgid msg_id_len PeerMessage.not_interested none

-- The beginning of the generators with a payload: a block with five bytes of room before `n` bytes,
-- which are set to `payload`.
unfoldable pub reserved_payload : ℕ → Bytes → M BString
reserved_payload n payload = do
  buf ← new_block (u32 (len_prefix_size + msg_id_len + n))
  t ← new_string buf n (len_prefix_size + msg_id_len)
  b ← memcpy_to (len_prefix_size + msg_id_len) payload buf
  pure (record t { head = some b })

unfoldable pub generate_have_message : ℕ → M BString
generate_have_message piece_index = do
  t ← reserved_payload 4 (be32 piece_index)
  set_prefix_and_msgid (msg_id_len + 4) PeerMessage.have (some t)

-- `bitfield` is what the pointer sees; its first `bitfield_len` bytes are copied.
unfoldable pub generate_bitfield_message : ℕ → Bytes → M BString
generate_bitfield_message bitfield_len bitfield = do
  bits ← bytes_at bitfield_len bitfield
  t ← reserved_payload bitfield_len bits
  set_prefix_and_msgid (u32 (msg_id_len + bitfield_len)) PeerMessage.bitfield (some t)

unfoldable pub generate_request_message : ℕ → ℕ → ℕ → M BString
generate_request_message piece_index begin slice_len = do
  t ← reserved_payload 12 (be32 piece_index ++ (be32 begin ++ be32 slice_len))
  set_prefix_and_msgid (12 + msg_id_len) PeerMessage.request (some t)

unfoldable pub generate_cancel_message : ℕ → ℕ → ℕ → M BString
generate_cancel_message piece_index begin slice_len = do
  t ← reserved_payload 12 (be32 piece_index ++ (be32 begin ++ be32 slice_len))
  set_prefix_and_msgid (12 + msg_id_len) PeerMessage.cancel (some t)

unfoldable pub generate_port_message : ℕ → M BString
generate_port_message port = do
  t ← reserved_payload 2 (be16 port)
  set_prefix_and_msgid (msg_id_len + 2) PeerMessage.port (some t)

-- The index and the offset go into the eight bytes before the slice.
unfoldable pub set_piece_header : ℕ → ℕ → BString → M BString
set_piece_header piece_index begin t = do
  buf ← block_of t
  b ← memcpy_to (t.off - 8) (be32 piece_index) buf
  b' ← memcpy_to (t.off - 8 + 4) (be32 begin) b
  pure (record t { head = some b'; off = t.off - 8; len = u32 (t.len + 8) })

-- With too little room before the slice the string is released, and NULL returned.
unfoldable pub generate_piece_message : ℕ → ℕ → ℕ → BString → M (Option BString)
generate_piece_message piece_index begin slice_len t s =
    let made = do
      t' ← set_piece_header piece_index begin t
      m ← set_prefix_and_msgid (u32 (slice_len + msg_id_len + 8)) PeerMessage.piece (some t')
      pure (some m)
    in if ltb t.off (8 + msg_id_len + len_prefix_size)
      then ok none (b_string_free (some t) s)
      else made s
