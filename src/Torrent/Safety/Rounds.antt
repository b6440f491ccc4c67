-- ===== src/Torrent/Safety/Rounds.antt =====
-- Results of rounds and loops of src/torrent_parse.c that may be undefined, and the blocks that a
-- loop keeps.
use bt_server.Common.{
  ℕ, ◌+◌, ◌≤◌, ◌≡◌, refl, inl, inr, Bool-cases, Bool, true, false, Option, none, some, arith, ◌>>=◌,
  mapped, if◌then◌else◌,
}
use bt_server.Bcode.{Process}
use bt_server.Bcode.Total.Endings.{Plenty}
use bt_server.Torrent.{Round, continued, joined}

-- A result, where there is one, satisfies `P`.
pub data Fine {A : Type 0} (P : A → Type 0) : Option A → Type 0 where
  faulted : Fine P none
  fine : {a : A} → P a → Fine P (some a)

module _ {A : Type 0} {P : A → Type 0} where
  pub Fine-if : (b : Bool) {x y : Option A} → Fine P x → Fine P y → Fine P (if b then x else y)
  Fine-if true p q = p
  Fine-if false p q = q

  pub Fine-bind :
      {B : Type 0} {Q : B → Type 0} {x : Option A} {k : A → Option B}
      → Fine P x
      → ((a : A) → P a → Fine Q (k a))
      → Fine Q (x >>= k)
  Fine-bind faulted h = faulted
  Fine-bind (fine p) h = h _ p

  pub Fine-mapped :
      {B : Type 0} {Q : B → Type 0} {x : Option A} (g : A → B)
      → Fine P x
      → ((a : A) → P a → Q (g a))
      → Fine Q (mapped g x)
  Fine-mapped g faulted h = faulted
  Fine-mapped g (fine p) h = fine (h _ p)

pub anything : {A : Type 0} (x : Option A) → Fine (λ _. Unit) x
anything none = faulted
anything (some a) = fine tt

-- What is left in the entries and in the struct comes from the `n` blocks that were there, or from
-- those allocated since `l` blocks were live.
abbrev pub Keeps : {D A : Type 0} → (D → ℕ) → (A → ℕ) → ℕ → ℕ → Round D A → Type 0
Keeps wd wa n l r = wd r.entries + wa r.target + l ≤ n + r.process.live

pub Keeps-continued :
    {V D A : Type 0} (wv : V → ℕ) (wd : D → ℕ) (wa : A → ℕ) (n l m : ℕ) (join : V → D → D)
    (round : Option (Round V A)) (rest : D) (k : A → Process → Option (Round D A))
    → m ≡ 1 + n + wd rest
    → ((v : V) (d : D) → wd (join v d) ≡ 1 + wv v + wd d)
    → Fine (Keeps wv wa n l) round
    → ((a : A) (s : Process) → Fine (Keeps wd wa (wd rest + wa a) s.live) (k a s))
    → Fine (Keeps wd wa m l) (continued round join rest k)
Keeps-continued wv wd wa n l m join none rest k e j h g = faulted
Keeps-continued wv wd wa n l m join (some r) rest k w j (fine h) g = elim (Bool-cases r.ok) [
  | inl e ↦
      rw e (Fine-mapped _ (g r.target r.process) (λ q b. omega (arith, j r.entries q.entries)))
  | inr e ↦ rw e (fine (omega (arith, j r.entries rest)))
]

-- A round or a loop went through, with memory left and `T` of the struct.
pub data Ready {D A : Type 0} (T : A → Type 0) : Option (Round D A) → Type 0 where
  ready :
      {d : D} {a : A} {s : Process}
      → Plenty s
      → T a
      → Ready T (some (record { entries = d; target = a; process = s; ok = true }))

pub Ready-joined :
    {V D A : Type 0} {T : A → Type 0} {x : Option (Round D A)} (join : V → D → D) (v : V)
    → Ready T x
    → Ready T (mapped (joined join v) x)
Ready-joined join v (ready q h) = ready q h

pub Ready-continued :
    {V D A : Type 0} {T : A → Type 0} {round : Option (Round V A)} (join : V → D → D) (rest : D)
    {k : A → Process → Option (Round D A)}
    → Ready T round
    → ((a : A) (s : Process) → Plenty s → T a → Ready T (k a s))
    → Ready T (continued round join rest k)
Ready-continued join rest (ready p t) h = Ready-joined join _ (h _ _ p t)

-- A round that hands on what a loop within it came to.
pub Ready-within :
    {D A E B : Type 0} {T : A → Type 0} {U : B → Type 0} {x : Option (Round D A)}
    {y : Option (Round E B)} (g : D → E) (h : A → B)
    → Ready T x
    → ((a : A) → T a → U (h a))
    → ((r : Round D A)
        → x ≡ some r
        → y
          ≡ some (record {
            entries = g r.entries;
            target = h r.target;
            process = r.process;
            ok = r.ok;
          }))
    → Ready U y
Ready-within g h (ready p t) u e = rw (e _ refl) (ready p (u _ t))
