-- ===== src/Message/Handshake.antt =====
-- generate_handshake_message of src/peer_message.c.
use bt_server.Common.{
  ℕ, zero, suc, ◌≤◌, ◌≡◌, refl, ap, none, some, [], ◌∷◌, ◌++◌, append_assoc, arith, length,
  length-append, take, drop, replicate, drop-length_append, take-length_append,
}
use bt_server.Libc.{Bytes}
use bt_server.Libc.Memory.{write, read, write-zero, read_lem}
use bt_server.Bcode.{BString, Process}
use bt_server.Bcode.Objects.{alloc, malloc, b_string_alloc, empty_string}
use bt_server.Bcode.Total.Endings.{Plenty}
use bt_server.Message.Steps.{ok, memcpy_to, bytes_at}
use bt_server.Message.Frames.{sent, Roomy, after_mallocs, new_block_ok}
use bt_server.Message.{Pointer, default_pstr, fill_handshake, generate_handshake_message}

-- The handshake of the protocol.
abbrev pub handshake : Bytes → Bytes → Bytes
handshake hash id = 19 ∷ default_pstr ++ (replicate 8 0 ++ (hash ++ id))

-- A write over the bytes `old` that stand behind `pre`.
write-over :
    (pre old new rest : Bytes) (off : ℕ)
    → off ≡ length pre
    → length new ≡ length old
    → write off new (pre ++ (old ++ rest)) ≡ some (pre ++ (new ++ rest))
unfolding write
write-over [] old new rest off e h =
    let here : off ≡ 0 = omega arith in
    let fits : length new ≤ length (old ++ rest) = omega (arith, length-append old rest) in
    rw (here, write-zero new (old ++ rest) fits, h, drop-length_append old rest) refl
write-over (x ∷ pre) old new rest zero e h = absurd (omega arith)
write-over (x ∷ pre) old new rest (suc off) e h =
    rw (write-over pre old new rest off (omega arith) h) refl

read-front : (xs rest : Bytes) (n : ℕ) → length xs ≡ n → read n (xs ++ rest) ≡ some xs
read-front xs rest n h =
    let enough : length xs ≤ length (xs ++ rest) = omega (arith, length-append xs rest) in
    rw (← h, read_lem (length xs) (xs ++ rest) enough, take-length_append xs rest) refl

-- The bytes before the hash.
abbrev opening : Bytes
opening = 19 ∷ default_pstr ++ replicate 8 0

-- The string that holds a handshake before the end `tail` of its block.
abbrev handshake_string : Bytes → Bytes → Bytes → BString
handshake_string hash id tail = record {
  head = some (opening ++ (hash ++ (id ++ tail)));
  off = 0;
  len = 68;
}

handshake_string-sent :
    (hash id tail : Bytes)
    → length hash ≡ 20
    → length id ≡ 20
    → sent (handshake_string hash id tail) ≡ handshake hash id
handshake_string-sent hash id tail h i =
    let forty : 40 ≡ length (hash ++ id) = omega (arith, length-append hash id) in
    let both : take 40 (hash ++ (id ++ tail)) ≡ hash ++ id =
      rw (← append_assoc hash id tail, forty) (take-length_append (hash ++ id) tail) in
    ap (λ zs. opening ++ zs) both

write-opening :
    (tail : Bytes)
    → (write 0 (19 ∷ []) (replicate 68 0 ++ tail) ≡ some (19 ∷ replicate 67 0 ++ tail))
      × (write 1 default_pstr (19 ∷ replicate 67 0 ++ tail)
          ≡ some (19 ∷ default_pstr ++ (replicate 48 0 ++ tail)))
      × (write 20 (replicate 8 0) (19 ∷ default_pstr ++ (replicate 48 0 ++ tail))
          ≡ some (opening ++ (replicate 20 0 ++ (replicate 20 0 ++ tail))))
unfolding write
write-opening tail = (refl, refl, refl)

write-id :
    (hash old id tail : Bytes)
    → length hash ≡ 20
    → length id ≡ length old
    → write 48 id (opening ++ (hash ++ (old ++ tail))) ≡ some (opening ++ (hash ++ (id ++ tail)))
write-id hash old id tail h i =
    let there : 48 ≡ length (opening ++ hash) = omega arith in
    write-over (opening ++ hash) old id tail 48 there i

fill_handshake_ok :
    (hash id hash_rest id_rest : Bytes) (t : BString) (s : Process)
    → Roomy 0 s
    → length hash ≡ 20
    → length id ≡ 20
    → (tail : Bytes) × (fill_handshake (hash ++ hash_rest) (id ++ id_rest) t s
        ≡ ok (some (handshake_string hash id tail)) (after_mallocs 1 s))
unfolding fill_handshake memcpy_to bytes_at
fill_handshake_ok hash id hash_rest id_rest t s r h i =
    let tail : Bytes = drop 68 (s.content s.calls 68) in
    let zeros : Bytes = replicate 20 0 in
    let big : 68 ≤ length (s.content s.calls 68) = omega (arith, r.room s.calls 68) in
    let (o₁, o₂, o₃) = write-opening tail in
    let w₁ = write-over opening zeros hash (zeros ++ tail) 28 refl h in
    let w₂ = write-id hash zeros id tail h i in
    (
      tail,
      rw
          (
            new_block_ok 68 s r.plenty,
            write-zero (replicate 68 0) (s.content s.calls 68) big,
            o₁,
            o₂,
            o₃,
            read-front hash hash_rest 20 h,
            w₁,
            read-front id id_rest 20 i,
            w₂,
          )
          refl,
    )

b_string_alloc_ok :
    (s : Process) → Plenty s → b_string_alloc s ≡ (some empty_string, after_mallocs 1 s)
unfolding b_string_alloc alloc malloc
b_string_alloc_ok s p = rw (p s.calls 32) refl

-- Where malloc does not refuse, an info hash and a peer id of twenty bytes each, whatever follows
-- them, give the handshake of the protocol: the length and name of the protocol, eight zeros, the
-- hash and the id. Two blocks are live more than before. Without a hash or an id the result is
-- NULL, and the process is unchanged.
pub generate_handshake_message_lem :
    (hash id hash_rest id_rest : Bytes) (other : Pointer) (s : Process)
    → Roomy 0 s
    → length hash ≡ 20
    → length id ≡ 20
    → (m : BString) × (generate_handshake_message
          (some (hash ++ hash_rest))
          (some (id ++ id_rest))
          s
        ≡ ok (some m) (after_mallocs 1 (after_mallocs 1 s)))
      × (sent m ≡ handshake hash id)
      × (generate_handshake_message none other s ≡ ok none s)
      × (generate_handshake_message (some hash) none s ≡ ok none s)
unfolding generate_handshake_message
generate_handshake_message_lem hash id hash_rest id_rest other s r h i =
    let room : Roomy 0 (after_mallocs 1 s) = record { plenty = r.plenty; room = r.room } in
    let (tail, filled) =
      fill_handshake_ok hash id hash_rest id_rest empty_string (after_mallocs 1 s) room h i in
    (
      handshake_string hash id tail,
      rw (generate_handshake_message, b_string_alloc_ok s r.plenty, b_string_alloc_ok s r.plenty)
          filled,
      handshake_string-sent hash id tail h i,
      refl,
      refl,
    )
