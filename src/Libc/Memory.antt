-- ===== src/Libc/Memory.antt =====
-- memcpy to and from blocks that are lists of bytes, and numbers in network byte order.
use bt_server.Common.{
  ℕ, zero, suc, ◌/◌, ◌%◌, ◌^◌, ◌≤◌, ◌<◌, ◌≡◌, refl, Option, none, some, List, [], ◌∷◌, ◌++◌, arith,
  mapped, length, take, drop,
}

-- `memcpy(block + off, bs, …)`: `none` where it writes past the block.
unfoldable pub write : ℕ → List ℕ → List ℕ → Option (List ℕ)
write zero [] block = some block
write zero (x ∷ xs) [] = none
write zero (x ∷ xs) (y ∷ block) = mapped (λ ys. x ∷ ys) (write zero xs block)
write (suc off) xs [] = none
write (suc off) xs (y ∷ block) = mapped (λ ys. y ∷ ys) (write off xs block)

-- The `n` bytes at a pointer: `none` where they go past the object.
unfoldable pub read : ℕ → List ℕ → Option (List ℕ)
read zero block = some []
read (suc n) [] = none
read (suc n) (x ∷ block) = mapped (λ ys. x ∷ ys) (read n block)

-- The bytes in memory of `htonl(n)` and `htons(n)`.
abbrev pub be32 : ℕ → List ℕ
be32 n = (n / 2 ^ 24 % 256) ∷ (n / 2 ^ 16 % 256) ∷ (n / 2 ^ 8 % 256) ∷ (n % 256) ∷ []

abbrev pub be16 : ℕ → List ℕ
be16 n = (n / 2 ^ 8 % 256) ∷ (n % 256) ∷ []

pub write-zero :
    (xs block : List ℕ)
    → length xs ≤ length block
    → write zero xs block ≡ some (xs ++ drop (length xs) block)
unfolding write
write-zero [] block h = refl
write-zero (x ∷ xs) [] h = absurd (omega arith)
write-zero (x ∷ xs) (y ∷ block) h = rw (write-zero xs block (omega arith))

write-zero_over : (xs block : List ℕ) → length block < length xs → write zero xs block ≡ none
unfolding write
write-zero_over [] block h = absurd (omega arith)
write-zero_over (x ∷ xs) [] h = refl
write-zero_over (x ∷ xs) (y ∷ block) h = rw (write-zero_over xs block (omega arith))

pub read_lem : (n : ℕ) (block : List ℕ) → n ≤ length block → read n block ≡ some (take n block)
unfolding read
read_lem zero block h = refl
read_lem (suc n) [] h = absurd (omega arith)
read_lem (suc n) (x ∷ block) h = rw (read_lem n block (omega arith))

pub read_over : (n : ℕ) (block : List ℕ) → length block < n → read n block ≡ none
unfolding read
read_over zero block h = absurd (omega arith)
read_over (suc n) [] h = refl
read_over (suc n) (x ∷ block) h = rw (read_over n block (omega arith))
