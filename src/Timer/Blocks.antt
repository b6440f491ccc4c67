-- ===== src/Timer/Blocks.antt =====
-- The allocated blocks of src/bt_timer.c, and the entries left by list_del.
use bt_server.Common.{
  ℕ, ◌≡◌, ◌≢◌, refl, sym, ◌∙◌, inl, inr, ◌⊎◌, none, some, List, [], ◌∷◌, ==_iff, ◌==◌, Bool-cases,
  All,
}
use bt_server.Timer.{Timer, list_del, free_block}
use bt_server.Timer.Operations.{without, free_all}

-- The address is that of an allocated block.
abbrev pub Held : List ℕ → ℕ → Type 0
Held [] p = ⊥
Held (q ∷ qs) p = (q ≡ p) ⊎ Held qs p

-- A block that malloc may return: none that is allocated.
abbrev pub Fresh : ℕ → List ℕ → Type 0
Fresh p = All (λ q. q ≢ p)

abbrev pub NoRepeats : List ℕ → Type 0
NoRepeats [] = Unit
NoRepeats (q ∷ qs) = Fresh q qs × NoRepeats qs

pub Fresh-ne : (p : ℕ) (qs : List ℕ) (q : ℕ) → Fresh p qs → Held qs q → q ≢ p
Fresh-ne p [] q f h = absurd h
Fresh-ne p (x ∷ xs) q (ne, f) h = elim h [ inl e ↦ λ z. ne (e ∙ z) | inr h' ↦ Fresh-ne p xs q f h' ]

pub All-mapped :
    {P Q : Timer → Type 0} (list : List Timer) → ((t : Timer) → P t → Q t) → All P list → All Q list
All-mapped [] h a = tt
All-mapped (t ∷ rest) h (p, a) = (h t p, All-mapped rest h a)

pub All-both :
    {P Q R : Timer → Type 0} (list : List Timer)
    → ((t : Timer) → P t → Q t → R t)
    → All P list
    → All Q list
    → All R list
All-both [] h a b = tt
All-both (t ∷ rest) h (p, a) (q, b) = (h t p q, All-both rest h a b)

pub list_del-cases :
    (p : ℕ) (list : List Timer)
    → (list_del p list ≡ some (without p list)) ⊎ (list_del p list ≡ none)
unfolding list_del
list_del-cases p [] = inr refl
list_del-cases p (vec ∷ list) = elim (Bool-cases (vec.address == p)) [
  | inl e ↦ rw e (inl refl)
  | inr e ↦ elim (list_del-cases p list) [
    | inl h ↦ rw (e, h) (inl refl)
    | inr h ↦ rw (e, h) (inr refl)
  ]
]

list_del-without :
    (p : ℕ) (list : List Timer) {rest : List Timer}
    → list_del p list ≡ some rest
    → rest ≡ without p list
list_del-without p list h = elim (list_del-cases p list) [ inl e ↦ cc | inr e ↦ absurd cc ]

pub free_block-Held : (p : ℕ) (qs : List ℕ) (q : ℕ) → q ≢ p → Held qs q → Held (free_block p qs) q
unfolding free_block
free_block-Held p [] q ne h = h
free_block-Held p (x ∷ xs) q ne h = elim (Bool-cases (x == p)) [
  | inl e ↦ rw e (elim h [ inl z ↦ absurd (ne (sym z ∙ (==_iff x p).0 e)) | inr h' ↦ h' ])
  | inr e ↦ rw e (elim h [ inl z ↦ inl z | inr h' ↦ inr (free_block-Held p xs q ne h') ])
]

free_block-Fresh : (p q : ℕ) (qs : List ℕ) → Fresh q qs → Fresh q (free_block p qs)
unfolding free_block
free_block-Fresh p q [] h = tt
free_block-Fresh p q (x ∷ xs) (ne, h) = elim (Bool-cases (x == p)) [
  | inl e ↦ rw e h
  | inr e ↦ rw e (ne, free_block-Fresh p q xs h)
]

pub free_block-NoRepeats : (p : ℕ) (qs : List ℕ) → NoRepeats qs → NoRepeats (free_block p qs)
unfolding free_block
free_block-NoRepeats p [] h = tt
free_block-NoRepeats p (x ∷ xs) (f, h) = elim (Bool-cases (x == p)) [
  | inl e ↦ rw e h
  | inr e ↦ rw e (free_block-Fresh p x xs f, free_block-NoRepeats p xs h)
]

pub free_all-NoRepeats :
    (list : List Timer) (qs : List ℕ) → NoRepeats qs → NoRepeats (free_all list qs)
free_all-NoRepeats [] qs h = h
free_all-NoRepeats (vec ∷ rest) qs h =
    free_all-NoRepeats rest (free_block vec.address qs) (free_block-NoRepeats vec.address qs h)
