-- ===== src/Bcode/Total/Endings.antt =====
-- What it means that a parser of src/b_parse.c comes back with its blocks accounted for.
use bt_server.Common.{
  ℕ, suc, ◌+◌, ◌≤◌, ◌<◌, ◌≡◌, ◌≢◌, inl, inr, Bool, true, false, [], ◌∷◌, arith, ◌==◌, if◌then◌else◌,
  Bool-cases, length,
}
use bt_server.Libc
use bt_server.Libc.{Bytes, Search, found, missing, overrun, strchr}
use bt_server.Bcode.{Process, Outcome, next, null, fault, spin, returned}

-- Every malloc succeeds.
abbrev pub Plenty : Process → Type 0
Plenty s = (k n : ℕ) → s.grant k n ≡ true

-- The call came back without running out of fuel. `n` bounds what is left of the buffer from
-- above, strictly; the object and the number of live blocks are related by `R`, or by `N` behind a NULL.
pub data Ends {A : Type 0} (n : ℕ) (R N : A → ℕ → Type 0) : Outcome A → Type 0 where
  parsed :
      {a : A} {p : Bytes} {s : Process}
      → length p < n
      → Plenty s
      → R a s.live
      → Ends n R N (next a p s)
  refused : {a : A} {s : Process} → Plenty s → N a s.live → Ends n R N (null a s)
  faulted : Ends n R N fault

-- All live blocks belong to the object, but for `b` others.
abbrev pub Owned : {A : Type 0} → (A → ℕ) → ℕ → A → ℕ → Type 0
Owned weight b a live = live ≡ b + weight a

module _ {A B : Type 0} {n m : ℕ} {R N : A → ℕ → Type 0} {Q M : B → ℕ → Type 0} where
  pub Ends-returned :
      {r : Outcome A} {k : A → Bytes → Process → Outcome B} {e : A → Process → Outcome B}
      → Ends n R N r
      → ((a : A) (p : Bytes) (s : Process)
          → length p < n
          → Plenty s
          → R a s.live
          → Ends m Q M (k a p s))
      → ((a : A) (s : Process) → Plenty s → N a s.live → Ends m Q M (e a s))
      → Ends m Q M (returned r k e)
  Ends-returned (parsed h p l) hk he = hk _ _ _ h p l
  Ends-returned (refused p l) hk he = he _ _ p l
  Ends-returned faulted hk he = faulted

module _ {A : Type 0} {n : ℕ} {R N : A → ℕ → Type 0} where
  pub Ends-if :
      (t : Bool) {x y : Outcome A} → Ends n R N x → Ends n R N y → Ends n R N (if t then x else y)
  Ends-if true hx hy = hx
  Ends-if false hx hy = hy

  pub weaken : {m : ℕ} {r : Outcome A} → n ≤ m → Ends n R N r → Ends m R N r
  weaken h (parsed t p l) = parsed (omega arith) p l
  weaken h (refused p l) = refused p l
  weaken h faulted = faulted

  pub Ends-ne-spin : {r : Outcome A} → Ends n R N r → r ≢ spin
  Ends-ne-spin (parsed h p l) = cc
  Ends-ne-spin (refused p l) = cc
  Ends-ne-spin faulted = cc

-- A successful search leaves less of the buffer.
abbrev pub Shorter : ℕ → Search → Type 0
Shorter n (found before after) = length after < n
Shorter n missing = Unit
Shorter n overrun = Unit

pub Shorter-behind : (n b : ℕ) (r : Search) → Shorter n r → Shorter (suc n) (Libc.behind b r)
Shorter-behind n b (found before after) h = omega arith
Shorter-behind n b missing h = tt
Shorter-behind n b overrun h = tt

pub strchr-Shorter : (c : ℕ) (buf : Bytes) → Shorter (length buf) (strchr c buf)
unfolding strchr
strchr-Shorter c [] = tt
strchr-Shorter c (b ∷ bs) = elim (Bool-cases (b == c)) [
  | inl e ↦ rw e (omega arith)
  | inr e ↦ rw e (elim (Bool-cases (b == 0)) [
    | inl z ↦ rw z tt
    | inr z ↦ rw z (Shorter-behind _ b _ (strchr-Shorter c bs))
  ])
]
