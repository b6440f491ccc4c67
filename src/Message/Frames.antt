-- ===== src/Message/Frames.antt =====
-- The messages of src/peer_message.c against the wire format of the peer protocol.
use bt_server.Common.{
  ℕ, suc, ◌+◌, ◌%◌, ◌^◌, ◌≤◌, ◌<◌, ◌≡◌, ◌≢◌, refl, ap, none, some, [], ◌∷◌, ◌++◌, arith, length,
  length-drop, take, drop, drop-length_append, ne→==,
}
use bt_server.Libc.{Bytes}
use bt_server.Libc.Memory.{write, be32, write-zero}
use bt_server.Bcode.{BString, Process}
use bt_server.Bcode.Objects.{malloc, b_string_alloc_reserved}
use bt_server.Bcode.Total.Endings.{Plenty}
use bt_server.Message.Steps.{Step, ok, new_block, new_string, memcpy_to}
use bt_server.Message.{u32, set_prefix, set_prefix_and_msgid, reserved_payload}

-- Length prefix, id and payload.
abbrev pub frame : ℕ → Bytes → Bytes
frame id body = be32 (suc (length body)) ++ (id ∷ body)

-- The bytes that send() would be given.
abbrev pub sent : BString → Bytes
sent t = elim t.head [ none ↦ [] | some block ↦ take t.len (drop t.off block) ]

-- The step makes a string with these bytes, and leaves `l` live blocks.
pub data Makes (bs : Bytes) (l : ℕ) : Step BString → Type 0 where
  makes : {t : BString} {s : Process} → sent t ≡ bs → s.live ≡ l → Makes bs l (ok t s)

-- malloc never refuses, and its blocks have `slack` bytes or more behind those asked for.
pub record Roomy (slack : ℕ) (s : Process) : Type 0 where
  pub plenty : Plenty s
  pub room : (k n : ℕ) → n + slack ≤ length (s.content k n)

-- The first five bytes of a block.
pub five :
    (block : Bytes)
    → 5 ≤ length block
    → (a b c d e : ℕ) × (ys : Bytes) × (block ≡ a ∷ b ∷ c ∷ d ∷ e ∷ ys)
five (a ∷ b ∷ c ∷ d ∷ e ∷ ys) h = (a, b, c, d, e, ys, refl)
five [] h = absurd (omega arith)
five (a ∷ []) h = absurd (omega arith)
five (a ∷ b ∷ []) h = absurd (omega arith)
five (a ∷ b ∷ c ∷ []) h = absurd (omega arith)
five (a ∷ b ∷ c ∷ d ∷ []) h = absurd (omega arith)

pub new_block_ok :
    (n : ℕ) (s : Process)
    → Plenty s
    → new_block n s ≡ ok (s.content s.calls n) (record s { calls = s.calls + 1; live = s.live + 1 })
unfolding new_block
new_block_ok n s p = rw (p s.calls n)

pub new_string_ok :
    (buf : Bytes) (len reserved : ℕ) (s : Process)
    → Plenty s
    → new_string buf len reserved s
      ≡ ok
          (record { head = some buf; off = reserved; len = len })
          (record s { calls = s.calls + 1; live = s.live + 1 })
unfolding new_string b_string_alloc_reserved malloc
new_string_ok buf len reserved s p = rw (p s.calls 32)

-- The prefix and the id at the front of a block.
set_prefix_front :
    (lp id a b c d e : ℕ) (ys : Bytes) (t : BString) (s : Process)
    → lp ≢ 0
    → set_prefix lp id 0 (a ∷ b ∷ c ∷ d ∷ e ∷ ys) t s
      ≡ ok (record t { head = some (be32 lp ++ (id ∷ ys)); off = 0; len = u32 (lp + 4) }) s
unfolding set_prefix memcpy_to write
set_prefix_front lp id a b c d e ys t s h = rw (ne→== lp 0 h)

-- The state behind `a` calls of malloc.
abbrev pub after_mallocs : ℕ → Process → Process
after_mallocs a s = record s { calls = s.calls + a; live = s.live + a }

-- A message of an id alone: the five bytes of its frame, in a block and a struct of its own.
pub set_prefix_and_msgid-short :
    (id : ℕ) (s : Process)
    → Roomy 0 s
    → Makes (frame id []) (s.live + 2) (set_prefix_and_msgid 1 id none s)
unfolding set_prefix_and_msgid
set_prefix_and_msgid-short id s r =
    let (a, b, c, d, e, ys, eq) = five (s.content s.calls 5) (omega (arith, r.room s.calls 5)) in
    rw (new_block_ok 5 s r.plenty, new_string_ok _ 5 0 (after_mallocs 1 s) r.plenty, eq)
      (rw
        (set_prefix_front 1 id a b c d e ys _ (after_mallocs 1 (after_mallocs 1 s))
          (λ q. absurd (omega arith)))
        (makes refl (omega arith)))

-- What the generators with a payload start from.
pub reserved_payload_ok :
    (payload : Bytes) (s : Process)
    → Roomy 0 s
    → length payload + 5 < 2 ^ 32
    → (front : Bytes) × (rest : Bytes) × (length front ≡ 5)
      × (length payload + 5 + length rest ≡ length (s.content s.calls (5 + length payload)))
      × (reserved_payload (length payload) payload s
          ≡ ok
              (record { head = some (front ++ (payload ++ rest)); off = 5; len = length payload })
              (after_mallocs 1 (after_mallocs 1 s)))
unfolding reserved_payload memcpy_to write
reserved_payload_ok payload s r h =
    let n = length payload in
    let block : Bytes = s.content s.calls (5 + n) in
    let big = r.room s.calls (5 + n) in
    let (a, b, c, d, e, ys, eq) = five block (omega arith) in
    let size : (5 + n) % 2 ^ 32 ≡ 5 + n = omega arith in
    let fits : n ≤ length ys = omega (arith, ap length eq) in
    (
      a ∷ b ∷ c ∷ d ∷ e ∷ [],
      drop n ys,
      refl,
      omega (arith, length-drop n ys, ap length eq),
      rw
          (
            size,
            new_block_ok (5 + n) s r.plenty,
            new_string_ok block n 5 (after_mallocs 1 s) r.plenty,
            eq,
          )
          (rw (write-zero payload ys (omega arith))),
    )

pub drop-five : (front ys : Bytes) → length front ≡ 5 → drop 5 (front ++ ys) ≡ ys
drop-five front ys h = rw (← h) (drop-length_append front ys)
