-- ===== src/Links/Leads.antt =====
-- Where the `next` pointers of a ring lead after one of its nodes was added or removed.
use mathlib.Core.Path.{subst}
use bt_server.Common.{ℕ, ◌≡◌, ◌≢◌, refl, sym, ◌∙◌, List, [], ◌∷◌, ◌++◌, ==-refl, ne→==, All}
use bt_server.Links.{set}
use bt_server.Links.Ring.{NotIn, Distinct, Leads, last, first, All-last, All-at}

set_same : (p v : ℕ) (f : ℕ → ℕ) → set p v f p ≡ v
set_same p v f = rw (==-refl p) refl

set_other : (p v q : ℕ) (f : ℕ → ℕ) → q ≢ p → set p v f q ≡ f q
set_other p v q f h = rw (ne→== p q (λ e. h (sym e))) refl

-- Changes elsewhere leave a path as it is.
pub frame :
    (f : ℕ → ℕ) (a v p : ℕ) (xs : List ℕ) (q : ℕ)
    → NotIn a (p ∷ xs)
    → Leads f p xs q
    → Leads (set a v f) p xs q
frame f a v p [] q (n, h) e = set_other a v p f n ∙ e
frame f a v p (x ∷ xs) q (n, h) (e, r) = (set_other a v p f n ∙ e, frame f a v x xs q h r)

-- A path with a new node in it.
pub leads_add :
    (f : ℕ → ℕ) (new p : ℕ) (pre post : List ℕ) (q : ℕ)
    → Distinct (p ∷ pre ++ post)
    → NotIn new (p ∷ pre ++ post)
    → Leads f p (pre ++ post) q
    → Leads (set (last p pre) new (set new (first post q) f)) p (pre ++ new ∷ post) q
leads_add f new p [] [] q d (n, _) e = (
  set_same p new (set new q f),
  set_other p new new (set new q f) (λ z. n (sym z)) ∙ set_same new q f,
)
leads_add f new p [] (y ∷ ys) q (a, d) (n, m) (e, r) = (
  set_same p new (set new y f),
  (
    set_other p new new (set new y f) (λ z. n (sym z)) ∙ set_same new y f,
    frame (set new y f) p new y ys q a (frame f new y y ys q m r),
  ),
)
leads_add f new p (x ∷ pre) post q (a, d) (b, n) (e, r) = (
  set_other (last x pre) new p (set new (first post q) f)
        (λ z. All-last (λ z. z ≢ p) x pre post a (sym z))
      ∙ set_other new _ p f b
      ∙ e,
  leads_add f new x pre post q d n r,
)

-- A path without one of its nodes.
pub leads_del :
    (f : ℕ → ℕ) (x v p : ℕ) (pre post : List ℕ) (q : ℕ)
    → Distinct (p ∷ pre ++ x ∷ post)
    → Leads f p (pre ++ x ∷ post) q
    → Leads (set x v (set (last p pre) (first post q) f)) p (pre ++ post) q
leads_del f x v p [] [] q ((a, _), d) (e, r) =
    set_other x v p (set p q f) (λ z. a (sym z)) ∙ set_same p q f
leads_del f x v p [] (y ∷ ys) q ((a, b), (c, d)) (e, (g, r)) = (
  set_other x v p (set p y f) (λ z. a (sym z)) ∙ set_same p y f,
  frame (set p y f) x v y ys q c (frame f p y y ys q b r),
)
leads_del f x v p (y ∷ pre) post q (a, d) (e, r) = (
  set_other x v p (set (last y pre) (first post q) f)
        (λ z. All-at (λ w. w ≢ p) x (y ∷ pre) post a (sym z))
      ∙ set_other (last y pre) (first post q) p f
          (λ z. All-last (λ w. w ≢ p) y pre (x ∷ post) a (sym z))
      ∙ e,
  leads_del f x v y pre post q d r,
)

pub leads_last :
    (f : ℕ → ℕ) (p : ℕ) (pre post : List ℕ) (q : ℕ)
    → Leads f p (pre ++ post) q
    → f (last p pre) ≡ first post q
leads_last f p [] [] q e = e
leads_last f p [] (y ∷ ys) q (e, r) = e
leads_last f p (x ∷ pre) post q (e, r) = leads_last f x pre post q r

pub leads_at :
    (f : ℕ → ℕ) (p x : ℕ) (pre post : List ℕ) (q : ℕ)
    → Leads f p (pre ++ x ∷ post) q
    → f x ≡ first post q
leads_at f p x [] [] q (e, r) = r
leads_at f p x [] (y ∷ ys) q (e, r) = r.0
leads_at f p x (z ∷ pre) post q (e, r) = leads_at f z x pre post q r

-- What holds of the nodes and the end holds where the pointers lead.
pub leads_values {ℓ} :
    (R : ℕ → Type ℓ) (f : ℕ → ℕ) (p : ℕ) (xs : List ℕ) (q : ℕ)
    → Leads f p xs q
    → All R xs
    → R q
    → All (λ x. R (f x)) (p ∷ xs)
leads_values R f p [] q e h r = (subst R (sym e) r, tt)
leads_values R f p (x ∷ xs) q (e, k) (a, h) r = (subst R (sym e) a, leads_values R f x xs q k h r)
