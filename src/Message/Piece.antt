-- ===== src/Message/Piece.antt =====
-- generate_piece_message of src/peer_message.c: the header goes in front of a slice in its own block.
use bt_server.Common.{
  ℕ, zero, suc, ◌+◌, ◌-◌, ◌%◌, ◌^◌, ◌≤◌, ◌<◌, ◌≡◌, refl, ap, true, false, none, some, [], ◌∷◌, ◌++◌,
  arith, ltb, lt→ltb, length, take-length_append, drop-length_append, ne→==,
}
use bt_server.Libc.{Bytes}
use bt_server.Libc.Memory.{write, be32}
use bt_server.Bcode.{BString, Process}
use bt_server.Bcode.Objects.{free, b_string_free}
use bt_server.Message.Steps.{ok, memcpy_to, block_of}
use bt_server.Message.Frames.{frame, sent, five}
use bt_server.Message.{set_prefix, set_prefix_and_msgid, set_piece_header, generate_piece_message}

-- A write behind the bytes `pre`.
write-behind :
    (pre block xs : Bytes) {block' : Bytes} (k off : ℕ)
    → off ≡ length pre + k
    → write k xs block ≡ some block'
    → write off xs (pre ++ block) ≡ some (pre ++ block')
unfolding write
write-behind [] block xs k off e h = let same : off ≡ k = omega arith in rw same h
write-behind (y ∷ pre) block xs k zero e h = absurd (omega arith)
write-behind (y ∷ pre) block xs k (suc off) e h =
    rw (write-behind pre block xs k off (omega arith) h)

-- The bytes before the slice one by one.
piece_in_place :
    (i begin a b c d e f g h j k l m n : ℕ) (pre slice rest : Bytes) (s : Process)
    → 1 ≤ length pre
    → length slice + 13 < 2 ^ 32
    → generate_piece_message i begin
        (length slice)
        (record {
          head = some (pre ++ (a ∷ b ∷ c ∷ d ∷ e ∷ f ∷ g ∷ h ∷ j ∷ k ∷ l ∷ m ∷ n ∷ slice ++ rest));
          off = length pre + 13;
          len = length slice;
        })
        s
      ≡ ok
          (some (record {
            head = some (
                pre
                ++ (be32 (length slice + 9) ++ (7 ∷ be32 i ++ (be32 begin ++ (slice ++ rest)))));
            off = length pre;
            len = length slice + 13;
          }))
          s
unfolding generate_piece_message set_piece_header set_prefix_and_msgid set_prefix memcpy_to block_of
    write
piece_in_place i begin a b c d e f g h j k l m n pre slice rest s hp hs =
    let block : Bytes = a ∷ b ∷ c ∷ d ∷ e ∷ f ∷ g ∷ h ∷ j ∷ k ∷ l ∷ m ∷ n ∷ slice ++ rest in
    let block₁ : Bytes = a ∷ b ∷ c ∷ d ∷ e ∷ be32 i ++ (k ∷ l ∷ m ∷ n ∷ slice ++ rest) in
    let block₂ : Bytes = a ∷ b ∷ c ∷ d ∷ e ∷ be32 i ++ (be32 begin ++ (slice ++ rest)) in
    let block₃ : Bytes =
      be32 (length slice + 9) ++ (e ∷ be32 i ++ (be32 begin ++ (slice ++ rest))) in
    let o = length pre + 13 - 8 in
    let big : ltb (length pre + 13) 13 ≡ false = ground arith in
    let room : ltb 5 o ≡ true = ground arith in
    let front : o - 5 ≡ length pre = omega arith in
    let whole : (length slice + 9 + 4) % 2 ^ 32 ≡ length slice + 13 = omega arith in
    let size : (length slice + 1 + 8) % 2 ^ 32 ≡ length slice + 9 = omega arith in
    let w₁ : write o (be32 i) (pre ++ block) ≡ some (pre ++ block₁) =
      write-behind pre block (be32 i) 5 o (omega arith) refl in
    let w₂ : write (o + 4) (be32 begin) (pre ++ block₁) ≡ some (pre ++ block₂) =
      write-behind pre block₁ (be32 begin) 9 (o + 4) (omega arith) refl in
    let w₃ : write (o - 5) (be32 (length slice + 9)) (pre ++ block₂) ≡ some (pre ++ block₃) =
      write-behind pre block₂ (be32 (length slice + 9)) 0 (o - 5) (omega arith) refl in
    let w₄ : write (o - 5 + 4) (7 ∷ []) (pre ++ block₃)
        ≡ some
            (pre ++ (be32 (length slice + 9) ++ (7 ∷ be32 i ++ (be32 begin ++ (slice ++ rest))))) =
      write-behind pre block₃ (7 ∷ []) 4 (o - 5 + 4) (omega arith) refl in
    rw
      (
        big,
        w₁,
        w₂,
        size,
        ne→== (length slice + 9) 0 (λ q. absurd (omega arith)),
        room,
        w₃,
        w₄,
        front,
        whole,
      )
      refl

-- Three bytes.
three : (ys : Bytes) → length ys ≡ 3 → (a b c : ℕ) × (ys ≡ a ∷ b ∷ c ∷ [])
three (a ∷ b ∷ c ∷ []) h = (a, b, c, refl)
three [] h = absurd (omega arith)
three (a ∷ []) h = absurd (omega arith)
three (a ∷ b ∷ []) h = absurd (omega arith)
three (a ∷ b ∷ c ∷ d ∷ ys) h = absurd (omega arith)

-- The string that holds the finished message.
abbrev piece_string : ℕ → ℕ → Bytes → Bytes → Bytes → BString
piece_string i begin pre slice rest = record {
  head = some (pre ++ (be32 (length slice + 9) ++ (7 ∷ be32 i ++ (be32 begin ++ (slice ++ rest)))));
  off = length pre;
  len = length slice + 13;
}

piece_string-sent :
    (i begin : ℕ) (pre slice rest : Bytes)
    → sent (piece_string i begin pre slice rest) ≡ frame 7 (be32 i ++ (be32 begin ++ slice))
piece_string-sent i begin pre slice rest =
    let n = length slice in
    let size : n + 13
        ≡ suc (suc (suc (suc (suc (suc (suc (suc (suc (suc (suc (suc (suc n)))))))))))) =
      omega arith in
    let counted : n + 9 ≡ suc (suc (suc (suc (suc (suc (suc (suc (suc n)))))))) = omega arith in
    rw (drop-length_append pre, size, take-length_append slice rest, counted) refl

-- A slice that has more than thirteen bytes of room before it in its block, and whose length
-- leaves the sizes below 2 ^ 32: generate_piece_message writes the prefix, the id 7, the index and
-- the offset straight before it, allocates and frees nothing, and the string has exactly the bytes
-- of the frame.
pub generate_piece_message-in_place :
    (i begin : ℕ) (pre room slice rest : Bytes) (s : Process)
    → 1 ≤ length pre
    → length room ≡ 13
    → length slice + 13 < 2 ^ 32
    → (m : BString) × (generate_piece_message i begin
          (length slice)
          (record {
            head = some (pre ++ (room ++ (slice ++ rest)));
            off = length pre + 13;
            len = length slice;
          })
          s
        ≡ ok (some m) s)
      × (sent m ≡ frame 7 (be32 i ++ (be32 begin ++ slice)))
generate_piece_message-in_place i begin pre room slice rest s hp hr hs =
    let (a, b, c, d, e, ys, eq) = five room (omega arith) in
    let (f, g, h, j, k, zs, eq') = five ys (omega (arith, ap length eq)) in
    let (l, m, n, eq'') = three zs (omega (arith, ap length eq, ap length eq')) in
    (
      piece_string i begin pre slice rest,
      rw (eq, eq', eq'') (piece_in_place i begin a b c d e f g h j k l m n pre slice rest s hp hs),
      piece_string-sent i begin pre slice rest,
    )

-- With less than thirteen bytes of room the result is NULL, and the string and its block are freed.
generate_piece_message-refused :
    (i begin slice_len : ℕ) (block : Bytes) (off len : ℕ) (s : Process)
    → off < 13
    → generate_piece_message i begin slice_len
        (record { head = some block; off = off; len = len })
        s
      ≡ ok none (free (free s))
unfolding generate_piece_message b_string_free
generate_piece_message-refused i begin slice_len block off len s h = rw (lt→ltb off 13 h) refl
