-- ===== src/Links/Effects.antt =====
-- What list_add_tail and list_del of include/list.h do to a ring.
use bt_server.Common.{
  ℕ, ◌≡◌, ◌≢◌, refl, sym, ◌∙◌, ap, inl, inr, true, some, List, [], ◌∷◌, ◌++◌, ◌==◌, ==-refl, ne→==,
  ==_iff, Bool-cases, All,
}
use bt_server.Links.{
  Store, set, write, write_all, next_at, prev_at, do_list_add, del_writes, list_add_tail, list_del,
  poison1, poison2,
}
use bt_server.Links.Ring.{
  NotIn, last, first, IsRing, All-last, All-first, All-with, All-less, All-at, Distinct-with,
  Distinct-less, Distinct-at,
}
use bt_server.Links.Leads.{leads_add, leads_del, leads_last, leads_at, leads_values}

-- `prev` is the way back from where `next` leads.
abbrev pub Back : (ℕ → ℕ) → (ℕ → ℕ) → ℕ → Type 0
Back f g p = g (f p) ≡ p

-- list_add_tail: the new node `new` comes between `l` and `b`.
add_Back :
    (f g : ℕ → ℕ) (new l b y : ℕ)
    → b ≢ new
    → g b ≡ l
    → y ≢ new
    → f y ≢ new
    → Back f g y
    → Back (set l new (set new b f)) (set new l (set b new g)) y
add_Back f g new l b y bn e n m h = elim (Bool-cases (l == y)) [
  | inl q ↦ rw (q, ==-refl new) ((==_iff l y).0 q)
  | inr q ↦
      let o : f y ≢ b = λ z. cc (q, ==-refl l, z, e, h) in
      rw
        (
          q,
          ne→== new y (λ z. n (sym z)),
          ne→== new (f y) (λ z. m (sym z)),
          ne→== b (f y) (λ z. o (sym z)),
        )
        h
]

del_Back :
    (f g : ℕ → ℕ) (x l b y v w : ℕ)
    → b ≢ x
    → f l ≡ x
    → f x ≡ b
    → g (f x) ≡ x
    → g (f l) ≡ l
    → y ≢ x
    → Back f g y
    → Back (set x v (set l b f)) (set x w (set b l g)) y
del_Back f g x l b y v w bx el ex gx gl n h = elim (Bool-cases (l == y)) [
  | inl q ↦
      rw (ne→== x y (λ z. n (sym z)), q, ne→== x b (λ z. bx (sym z)), ==-refl b) ((==_iff l y).0 q)
  | inr q ↦
      let fx : x ≢ f y = λ z. cc (q, ==-refl l, z, el, gl, h) in
      let fb : b ≢ f y = λ z. n (cc (z, ex, gx, h)) in
      rw (ne→== x y (λ z. n (sym z)), q, ne→== x (f y) fx, ne→== b (f y) fb) h
]

-- What holds of two predicates of each node gives a third.
zipped {ℓ κ μ ν} :
    {P : ℕ → Type ℓ} {Q : ℕ → Type κ} {R : ℕ → Type μ} {S : ℕ → Type ν} (xs : List ℕ)
    → ((x : ℕ) → P x → Q x → R x → S x)
    → All P xs
    → All Q xs
    → All R xs
    → All S xs
zipped [] k p q r = tt
zipped (x ∷ xs) k (p, ps) (q, qs) (r, rs) = (k x p q r, zipped xs k ps qs rs)

-- The links after list_add_tail puts `new` between `l` and `b`, and after list_del of `x` there.
abbrev pub added : ℕ → ℕ → ℕ → Store → Store
added l new b s = record s {
  next = set l new (set new b s.next);
  prev = set new l (set b new s.prev);
}

abbrev pub removed : ℕ → ℕ → ℕ → Store → Store
removed l x b s = record s {
  next = set x poison1 (set l b s.next);
  prev = set x poison2 (set b l s.prev);
}

write_added :
    (l new b : ℕ) (s : Store)
    → s.live l ≡ true
    → s.live new ≡ true
    → s.live b ≡ true
    → write_all (do_list_add new l b) s ≡ some (added l new b s)
unfolding write_all write
write_added l new b s hl hn hb = rw (hb, hn, hn, hl) refl

pub write_removed :
    (l x b : ℕ) (s : Store)
    → s.live l ≡ true
    → s.live x ≡ true
    → s.live b ≡ true
    → write_all (del_writes x l b) s ≡ some (removed l x b s)
unfolding write_all write
write_removed l x b s hl hx hb = rw (hb, hl, hx, hx) refl

pub prev_at-live : (p : ℕ) (s : Store) → s.live p ≡ true → prev_at p s ≡ some (s.prev p)
unfolding prev_at
prev_at-live p s h = rw h refl

pub next_at-live : (p : ℕ) (s : Store) → s.live p ≡ true → next_at p s ≡ some (s.next p)
unfolding next_at
next_at-live p s h = rw h refl

list_add_tail_eq :
    (new head l : ℕ) (s : Store)
    → prev_at head s ≡ some l
    → list_add_tail new head s ≡ write_all (do_list_add new l head) s
unfolding list_add_tail
list_add_tail_eq new head l s h = rw h refl

list_del_eq :
    (entry l b : ℕ) (s : Store)
    → prev_at entry s ≡ some l
    → next_at entry s ≡ some b
    → list_del entry s ≡ write_all (del_writes entry l b) s
unfolding list_del
list_del_eq entry l b s h g = rw (h, g) refl

module _ (head : ℕ) (pre post : List ℕ) (s : Store) where
  -- list_add_tail of a new node in memory at a node of a ring, or its head, puts it in front of that.
  pub list_add_tail-IsRing :
      (new : ℕ)
      → IsRing head (pre ++ post) s
      → s.live new ≡ true
      → NotIn new (head ∷ pre ++ post)
      → (list_add_tail new (first post head) s
          ≡ some (added (last head pre) new (first post head) s))
        × IsRing head (pre ++ new ∷ post) (added (last head pre) new (first post head) s)
  list_add_tail-IsRing new r hn n =
      let l = last head pre in
      let b = first post head in
      let hl : s.live l ≡ true = All-last (λ p. s.live p ≡ true) head pre post r.live in
      let hb : s.live b ≡ true =
        All-first (λ p. s.live p ≡ true) head pre post head r.live.0 r.live in
      let ln : l ≢ new = All-last (λ p. p ≢ new) head pre post n in
      let bn : b ≢ new = All-first (λ p. p ≢ new) head pre post head n.0 n in
      let lb : s.next l ≡ b = leads_last s.next head pre post head r.forth in
      let bl : s.prev b ≡ l =
        ap s.prev (sym lb) ∙ All-last (Back s.next s.prev) head pre post r.back in
      let others =
        zipped (head ∷ pre ++ post) (λ y p q h. add_Back s.next s.prev new l b y bn bl p q h) n
          (leads_values (λ p. p ≢ new) s.next head (pre ++ post) head r.forth n.1 n.0) r.back in
      let at_new : Back (set l new (set new b s.next)) (set new l (set b new s.prev)) new =
        rw (ne→== l new ln, ==-refl new, ne→== new b (λ z. bn (sym z)), ==-refl b) refl in
      (
        list_add_tail_eq new b l s (prev_at-live b s hb ∙ ap some bl)
            ∙ write_added l new b s hl hn hb,
        record {
          distinct = (
            All-with (λ z. z ≢ head) new pre post (λ z. n.0 (sym z)) r.distinct.0,
            Distinct-with new pre post n.1 r.distinct.1,
          );
          live = (r.live.0, All-with (λ p. s.live p ≡ true) new pre post hn r.live.1);
          forth = leads_add s.next new head pre post head r.distinct n r.forth;
          back = (
            others.0,
            All-with (Back (set l new (set new b s.next)) (set new l (set b new s.prev))) new pre
                post at_new others.1,
          );
        },
      )

  -- list_del of a node of a ring takes it out, with poison for its links.
  pub list_del-IsRing :
      (x : ℕ)
      → IsRing head (pre ++ x ∷ post) s
      → (list_del x s ≡ some (removed (last head pre) x (first post head) s))
        × IsRing head (pre ++ post) (removed (last head pre) x (first post head) s)
  list_del-IsRing x r =
      let l = last head pre in
      let b = first post head in
      let P : ℕ → Type 0 = λ p. s.live p ≡ true in
      let here : NotIn x (head ∷ pre ++ post) = Distinct-at x (head ∷ pre) post r.distinct in
      let less = All-less P x (head ∷ pre) post r.live in
      let hx = All-at P x (head ∷ pre) post r.live in
      let hl : s.live l ≡ true = All-last P head pre (x ∷ post) r.live in
      let hb : s.live b ≡ true = All-first P head pre post head r.live.0 less in
      let bx : b ≢ x = All-first (λ p. p ≢ x) head pre post head here.0 here in
      let el : s.next l ≡ x = leads_last s.next head pre (x ∷ post) head r.forth in
      let ex : s.next x ≡ b = leads_at s.next head x pre post head r.forth in
      let gx = All-at (Back s.next s.prev) x (head ∷ pre) post r.back in
      let gl = All-last (Back s.next s.prev) head pre (x ∷ post) r.back in
      (
        list_del_eq x l b s (prev_at-live x s hx ∙ ap some (ap s.prev (sym el) ∙ gl))
              (next_at-live x s hx ∙ ap some ex)
            ∙ write_removed l x b s hl hx hb,
        record {
          distinct = Distinct-less x (head ∷ pre) post r.distinct;
          live = less;
          forth = leads_del s.next x poison1 head pre post head r.distinct r.forth;
          back =
              zipped (head ∷ pre ++ post)
                (λ y p q h. del_Back s.next s.prev x l b y poison1 poison2 bx el ex gx gl p h) here
                here (All-less (Back s.next s.prev) x (head ∷ pre) post r.back);
        },
      )
