-- ===== src/Socket/Send.antt =====
-- sendall of src/bt_socket.c against a send() that takes what it likes.
use bt_server.Common.{
  ℕ, zero, suc, ◌+◌, ◌-◌, ◌≤◌, ◌<◌, ◌≡◌, refl, ◌∙◌, ap, inl, inr, Bool, true, false, [], ◌∷◌, ◌++◌,
  arith, ltb, lt→ltb, ltb→lt, ◌⊎◌, Bool-cases, length, length-drop, length-take, take, drop,
}
use bt_server.Libc.{Bytes}
use bt_server.Libc.Memory.{read_lem}
use bt_server.Socket.{Reply, ok, err, SendAll, sent, fault, send_loop, sendall}

-- send() takes at least one of the bytes that it is offered, and no more than these, or fails.
pub data Takes (n : ℕ) : Reply → Type 0 where
  taken : {m : ℕ} → 1 ≤ m → m ≤ n → Takes n (ok m)
  broken : {e : ℕ} → Takes n (err e)

abbrev pub Steps : (ℕ → Bytes → Reply) → Type 0
Steps send = (k : ℕ) (bs : Bytes) → Takes (length bs) (send k bs)

-- 0 with all bytes on the wire, or -1 with the first `*len` of them, less than all.
pub data Sends (buf : Bytes) (len : ℕ) : SendAll → Type 0 where
  whole : {wire : Bytes} → wire ≡ take len buf → Sends buf len (sent true len wire)
  part : {t : ℕ} {wire : Bytes} → t < len → wire ≡ take t buf → Sends buf len (sent false t wire)

take-nil : (n : ℕ) → take {A = ℕ} n [] ≡ []
take-nil zero = refl
take-nil (suc n) = refl

take-take-drop : (a b c : ℕ) (xs : Bytes) → c ≡ a + b → take a xs ++ take b (drop a xs) ≡ take c xs
take-take-drop zero b c xs h = let same : c ≡ b = omega arith in rw same refl
take-take-drop (suc a) b c [] h = rw (take-nil b, take-nil c) refl
take-take-drop (suc a) b zero (x ∷ xs) h = absurd (omega arith)
take-take-drop (suc a) b (suc c) (x ∷ xs) h =
    ap (λ ys. x ∷ ys) (take-take-drop a b c xs (omega arith))

take-take : (n m : ℕ) (xs : Bytes) → n ≤ m → take n (take m xs) ≡ take n xs
take-take zero m xs h = refl
take-take (suc n) zero xs h = absurd (omega arith)
take-take (suc n) (suc m) [] h = refl
take-take (suc n) (suc m) (x ∷ xs) h = ap (λ ys. x ∷ ys) (take-take n m xs (omega arith))

module _ (send : ℕ → Bytes → Reply) (steps : Steps send) (buf : Bytes) (len : ℕ)
    (big : len ≤ length buf) where
  after_send :
      (f k total left : ℕ) (bs wire : Bytes) (r : Reply)
      → total < len
      → wire ≡ take total buf
      → Takes left r
      → ((n : ℕ)
          → 1 ≤ n
          → n ≤ left
          → Sends buf len
              (send_loop f send buf len (k + 1) (total + n) (left - n) true (wire ++ take n bs)))
      → Sends buf len (elim r [
        | err errno ↦ sent false total wire
        | ok n ↦ send_loop f send buf len (k + 1) (total + n) (left - n) true (wire ++ take n bs)
      ])
  after_send f k total left bs wire (err e) h w broken next = part h w
  after_send f k total left bs wire (ok n) h w (taken a b) next = next n a b

  send_loop-Sends :
      (f k total left : ℕ) (n_set : Bool) (wire : Bytes)
      → total + left ≡ len
      → left < f
      → wire ≡ take total buf
      → (ltb total len ≡ true) ⊎ (n_set ≡ true)
      → Sends buf len (send_loop f send buf len k total left n_set wire)
  unfolding send_loop
  send_loop-Sends zero k total left n_set wire l hf w o = absurd (omega arith)
  send_loop-Sends (suc f) k total left n_set wire l hf w o = elim (Bool-cases (ltb total len)) [
    | inl e ↦
        let more : total < len = ltb→lt total len e in
        let room : left ≤ length (drop total buf) = omega (arith, length-drop total buf) in
        let bs : Bytes = take left (drop total buf) in
        let count : length bs ≡ left = omega (arith, length-take left (drop total buf)) in
        let kept : (n : ℕ) → n ≤ left → wire ++ take n bs ≡ take (total + n) buf = λ n b.
          rw (w, take-take n left (drop total buf) b)
            (take-take-drop total n (total + n) buf refl) in
        rw (e, read_lem left (drop total buf) room)
          (after_send f k total left bs wire (send k bs) more w (rw count at (steps k bs)) (λ n a b.
            send_loop-Sends f (k + 1) (total + n) (left - n) true (wire ++ take n bs) (omega arith)
              (omega arith) (kept n b) (inr refl)))
    | inr e ↦
        let done : total ≡ len = ground arith in
        elim o [
          | inl c ↦ absurd (cc (e, c))
          | inr c ↦ rw (e, c, done) (whole (w ∙ ap (λ m. take m buf) done))
        ]
  ]

-- sendall of at least one byte, over a send() that takes some of the bytes that it is offered or
-- fails: it comes back (fuel above the length is enough) with 0 and all bytes on the wire in order,
-- or with -1 and `*len` set to the number of bytes from the front that are on the wire.
pub sendall_total :
    (f : ℕ) (send : ℕ → Bytes → Reply) (buf : Bytes) (len : ℕ)
    → Steps send
    → 0 < len
    → len ≤ length buf
    → len < f
    → Sends buf len (sendall f send buf len)
unfolding sendall
sendall_total f send buf len steps h big hf =
    send_loop-Sends send steps buf len big f 0 0 len false [] (omega arith) hf refl
      (inl (lt→ltb 0 len h))

-- An empty send reads the `int n` of sendall before anything was assigned to it.
sendall-empty :
    (f : ℕ) (send : ℕ → Bytes → Reply) (buf : Bytes) → sendall (suc f) send buf 0 ≡ fault
unfolding sendall send_loop
sendall-empty f send buf = refl
