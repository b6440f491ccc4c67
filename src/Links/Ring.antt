-- ===== src/Links/Ring.antt =====
-- Rings of nodes, and what list_add_tail and list_del of include/list.h do to them.
use bt_server.Common.{ℕ, ◌≡◌, ◌≢◌, sym, true, List, [], ◌∷◌, ◌++◌, All}
use bt_server.Links.{Store}

abbrev pub NotIn : ℕ → List ℕ → Type 0
NotIn p = All (λ q. q ≢ p)

abbrev pub Distinct : List ℕ → Type 0
Distinct [] = Unit
Distinct (p ∷ ps) = NotIn p ps × Distinct ps

-- From `p` the `next` pointers lead through `xs` to `q`.
abbrev pub Leads : (ℕ → ℕ) → ℕ → List ℕ → ℕ → Type 0
Leads next p [] q = next p ≡ q
Leads next p (x ∷ xs) q = (next p ≡ x) × Leads next x xs q

-- The last node before the end.
abbrev pub last : ℕ → List ℕ → ℕ
last p [] = p
last p (x ∷ xs) = last x xs

abbrev pub first : List ℕ → ℕ → ℕ
first [] q = q
first (x ∷ xs) q = x

-- A ring behind its head: distinct nodes in memory, `next` leads through them and back to the head,
-- and `prev` is the way back.
pub record IsRing (head : ℕ) (xs : List ℕ) (s : Store) : Type 0 where
  pub distinct : Distinct (head ∷ xs)
  pub live : All (λ p. s.live p ≡ true) (head ∷ xs)
  pub forth : Leads s.next head xs head
  pub back : All (λ p. s.prev (s.next p) ≡ p) (head ∷ xs)

module _ {ℓ} (P : ℕ → Type ℓ) where
  pub All-last : (p : ℕ) (pre post : List ℕ) → All P (p ∷ pre ++ post) → P (last p pre)
  All-last p [] post (h, r) = h
  All-last p (x ∷ pre) post (h, r) = All-last x pre post r

  pub All-first :
      (p : ℕ) (pre post : List ℕ) (q : ℕ) → P q → All P (p ∷ pre ++ post) → P (first post q)
  All-first p [] [] q h (a, r) = h
  All-first p [] (y ∷ ys) q h (a, r) = r.0
  All-first p (x ∷ pre) post q h (a, r) = All-first x pre post q h r

  pub All-with : (x : ℕ) (pre post : List ℕ) → P x → All P (pre ++ post) → All P (pre ++ x ∷ post)
  All-with x [] post h r = (h, r)
  All-with x (y ∷ pre) post h (a, r) = (a, All-with x pre post h r)

  pub All-less : (x : ℕ) (pre post : List ℕ) → All P (pre ++ x ∷ post) → All P (pre ++ post)
  All-less x [] post (h, r) = r
  All-less x (y ∷ pre) post (a, r) = (a, All-less x pre post r)

  pub All-at : (x : ℕ) (pre post : List ℕ) → All P (pre ++ x ∷ post) → P x
  All-at x [] post (h, r) = h
  All-at x (y ∷ pre) post (a, r) = All-at x pre post r

pub Distinct-with :
    (x : ℕ) (pre post : List ℕ)
    → NotIn x (pre ++ post)
    → Distinct (pre ++ post)
    → Distinct (pre ++ x ∷ post)
Distinct-with x [] post n d = (n, d)
Distinct-with x (y ∷ pre) post (m, n) (a, d) =
    (All-with (λ z. z ≢ y) x pre post (λ e. m (sym e)) a, Distinct-with x pre post n d)

pub Distinct-less :
    (x : ℕ) (pre post : List ℕ) → Distinct (pre ++ x ∷ post) → Distinct (pre ++ post)
Distinct-less x [] post (n, d) = d
Distinct-less x (y ∷ pre) post (a, d) =
    (All-less (λ z. z ≢ y) x pre post a, Distinct-less x pre post d)

pub Distinct-at : (x : ℕ) (pre post : List ℕ) → Distinct (pre ++ x ∷ post) → NotIn x (pre ++ post)
Distinct-at x [] post (n, d) = n
Distinct-at x (y ∷ pre) post (a, d) =
    ((λ e. All-at (λ z. z ≢ y) x pre post a (sym e)), Distinct-at x pre post d)
