-- ===== src/Timer/Pointers/Steps.antt =====
-- The steps of src/bt_timer.c on a ring in memory are those on the sequence it stands for.
use mathlib.Core.Path.{subst}
use bt_server.Common.{
  ℕ, ◌<◌, ◌≡◌, ◌≢◌, ◌==◌, ==-refl, ne→==, Bool-cases, inl, inr, refl, sym, ◌∙◌, ap, true, some,
  List, ◌∷◌, ◌++◌, length,
}
use bt_server.Links.{Store, next_at, list_add_tail, list_del, poison1}
use bt_server.Links.Ring.{NotIn, first, last, IsRing, All-at, All-last, All-less, All-with}
use bt_server.Links.Leads.{leads_at}
use bt_server.Links.Effects.{next_at-live, added, removed, list_add_tail-IsRing, list_del-IsRing}
use bt_server.Timer.{Timer, find, next_entry}
use bt_server.Timer.Order.{insert_sorted, All-insert_sorted}
use bt_server.Timer.Operations.{without, All-without}
use bt_server.Timer.Pointers.{Memory, ret, with_links, get_position, enqueue}
use bt_server.Timer.Pointers.Shape.{
  addresses, Shows, Poisoned, node, addresses-append, insert_sorted-split, find-split,
  node-first_entry,
}
use bt_server.Timer.Pointers.Position.{get_position_lem}

enqueue_eq :
    (g ptr interval pos : ℕ) (m : Memory) (s : Store)
    → get_position g interval m ≡ ret pos
    → list_add_tail ptr pos m.links ≡ some s
    → enqueue g ptr interval m ≡ ret (with_links m s)
unfolding enqueue
enqueue_eq g ptr interval pos m s h e = rw (h, e) refl

-- A timer in memory that the ring does not hold is put where insert_sorted puts it.
pub enqueue-Shows :
    (g : ℕ) (t : Timer) (list : List Timer) (m : Memory)
    → length list < g
    → Shows m list
    → m.links.live t.address ≡ true
    → NotIn t.address (m.head ∷ addresses list)
    → m.body t.address ≡ t
    → (s : Store) × (enqueue g t.address t.interval m ≡ ret (with_links m s))
      × (s.live ≡ m.links.live)
      × Shows (with_links m s) (insert_sorted t list)
      × (((q : ℕ)
            → m.links.live q ≡ true
            → t.address ≢ q
            → NotIn q (m.head ∷ addresses list)
            → m.links.next q ≡ poison1)
          → Poisoned (with_links m s) (insert_sorted t list))
enqueue-Shows g t list m h r l n b =
    let (pre, post, a, c, e) = insert_sorted-split m.head t list in
    let cut = addresses-append pre post in
    let ring : IsRing m.head (addresses pre ++ addresses post) m.links =
      subst (λ xs. IsRing m.head xs m.links) (ap addresses a ∙ cut) r.ring in
    let out : NotIn t.address (m.head ∷ addresses pre ++ addresses post) =
      subst (λ xs. NotIn t.address (m.head ∷ xs)) (ap addresses a ∙ cut) n in
    let (done, ring') =
      list_add_tail-IsRing m.head (addresses pre) (addresses post) m.links t.address ring l out in
    let s = added (last m.head (addresses pre)) t.address (first (addresses post) m.head) m.links in
    (
      s,
      enqueue_eq g t.address t.interval (first (addresses post) m.head) m _
          (get_position_lem g t.interval list m h r ∙ ap ret e) done,
      refl,
      record {
        ring =
            subst (λ xs. IsRing m.head xs s)
              (sym (ap addresses c ∙ addresses-append pre (t ∷ post))) ring';
        bodies = All-insert_sorted (λ u. m.body u.address ≡ u) t list b r.bodies;
      },
      λ others q live out'.
          let out'' : NotIn q (m.head ∷ addresses pre ++ t.address ∷ addresses post) =
            subst (λ xs. NotIn q (m.head ∷ xs)) (ap addresses c ∙ addresses-append pre (t ∷ post))
              out' in
          let off = All-at (λ y. y ≢ q) t.address (m.head ∷ addresses pre) (addresses post) out'' in
          let behind =
            All-last (λ y. y ≢ q) m.head (addresses pre) (t.address ∷ addresses post) out'' in
          let left = others q live off (
            subst (λ xs. NotIn q (m.head ∷ xs)) (sym (ap addresses a ∙ cut))
              (All-less (λ y. y ≢ q) t.address (m.head ∷ addresses pre) (addresses post) out'')) in
          rw (ne→== (last m.head (addresses pre)) q behind, ne→== t.address q off) left,
    )

-- A timer of the ring is taken out.
pub list_del-Shows :
    (p : ℕ) (t : Timer) (list : List Timer) (m : Memory)
    → Shows m list
    → find p list ≡ some t
    → (s : Store) × (list_del t.address m.links ≡ some s)
      × (s.live ≡ m.links.live)
      × Shows (with_links m s) (without p list)
      × (Poisoned m list → Poisoned (with_links m s) (without p list))
list_del-Shows p t list m r h =
    let (pre, post, a, c, e) = find-split p list h in
    let ring : IsRing m.head (addresses pre ++ t.address ∷ addresses post) m.links =
      subst (λ xs. IsRing m.head xs m.links) (ap addresses a ∙ addresses-append pre (t ∷ post))
        r.ring in
    let (done, ring') =
      list_del-IsRing m.head (addresses pre) (addresses post) m.links t.address ring in
    let s =
      removed (last m.head (addresses pre)) t.address (first (addresses post) m.head) m.links in
    (
      s,
      done,
      refl,
      record {
        ring =
            subst (λ xs. IsRing m.head xs s) (sym (ap addresses c ∙ addresses-append pre post))
              ring';
        bodies = All-without (λ u. m.body u.address ≡ u) p list r.bodies;
      },
      λ others q live out'. elim (Bool-cases (t.address == q)) [
        | inl z ↦ rw z refl
        | inr z ↦
            let out'' : NotIn q (m.head ∷ addresses pre ++ addresses post) =
              subst (λ xs. NotIn q (m.head ∷ xs)) (ap addresses c ∙ addresses-append pre post)
                out' in
            let behind = All-last (λ y. y ≢ q) m.head (addresses pre) (addresses post) out'' in
            let left = others q live (
              subst (λ xs. NotIn q (m.head ∷ xs))
                (sym (ap addresses a ∙ addresses-append pre (t ∷ post)))
                (All-with (λ y. y ≢ q) t.address (m.head ∷ addresses pre) (addresses post)
                  (λ k. cc (z, k, ==-refl q)) out'')) in
            rw (z, ne→== (last m.head (addresses pre)) q behind) left
      ],
    )

-- The links of a timer of the ring lead to the one behind it.
pub next_at-Shows :
    (p : ℕ) {t : Timer} (list : List Timer) (m : Memory)
    → Shows m list
    → find p list ≡ some t
    → next_at t.address m.links ≡ some (node m.head (next_entry p list))
next_at-Shows p {t} list m r h =
    let (pre, post, a, c, e) = find-split p list h in
    let ring : IsRing m.head (addresses pre ++ t.address ∷ addresses post) m.links =
      subst (λ xs. IsRing m.head xs m.links) (ap addresses a ∙ addresses-append pre (t ∷ post))
        r.ring in
    next_at-live t.address m.links
      (All-at (λ q. m.links.live q ≡ true) t.address (addresses pre) (addresses post) ring.live.1)
    ∙ ap some (
        leads_at m.links.next m.head t.address (addresses pre) (addresses post) m.head ring.forth
        ∙ sym (node-first_entry m.head post)
        ∙ ap (node m.head) (sym e))
