-- ===== src/Timer/Pointers/Blocks.antt =====
-- malloc and free in src/bt_timer.c beside a ring in memory.
use bt_server.Common.{
  ℕ, ◌+◌, ◌≡◌, ◌≢◌, refl, sym, inl, inr, Bool, true, false, some, List, [], ◌∷◌, ◌==◌, ne→==,
  Bool-cases, if◌then◌else◌, All,
}
use bt_server.Links.Ring.{NotIn}
use bt_server.Timer.{Timer, find}
use bt_server.Timer.Order.{Absent}
use bt_server.Timer.Ring.{All-find}
use bt_server.Timer.Pointers.{Memory, allocated, released}
use bt_server.Timer.Pointers.Shape.{addresses, Shows, All-addresses, Absent-NotIn}
use bt_server.Timer.Pointers.Bodies.{with_body-Shows}

pub found_live :
    (p : ℕ) (list : List Timer) (m : Memory) {t : Timer}
    → Shows m list
    → find p list ≡ some t
    → (m.links.live t.address ≡ true) × (t.address ≢ m.head) × (m.body t.address ≡ t)
found_live p list m r e = (
  All-find (λ u. m.links.live u.address ≡ true) p list e
      (All-addresses (λ q. m.links.live q ≡ true) list r.ring.live.1),
  All-find (λ u. u.address ≢ m.head) p list e
      (All-addresses (λ q. q ≢ m.head) list r.ring.distinct.0),
  All-find (λ u. m.body u.address ≡ u) p list e r.bodies,
)

All-live :
    (f g : ℕ → Bool) (xs : List ℕ)
    → ((p : ℕ) → f p ≡ true → g p ≡ true)
    → All (λ p. f p ≡ true) xs
    → All (λ p. g p ≡ true) xs
All-live f g [] k h = tt
All-live f g (p ∷ ps) k (e, h) = (k p e, All-live f g ps k h)

pub allocated-Shows :
    (address : ℕ) (t : Timer) (list : List Timer) (m : Memory)
    → Absent address list
    → Shows m list
    → Shows (allocated address t m) list
allocated-Shows address t list m a r =
    let m' : Memory = record m {
      links = record m.links { live = λ q. if address == q then true else m.links.live q };
      num = m.num + 1;
    } in
    with_body-Shows address t m' list a (record {
      ring = record {
        distinct = r.ring.distinct;
        live =
            All-live m.links.live m'.links.live (m.head ∷ addresses list)
              (λ p h. elim (Bool-cases (address == p)) [ inl e ↦ rw e refl | inr e ↦ rw e h ])
              r.ring.live;
        forth = r.ring.forth;
        back = r.ring.back;
      };
      bodies = r.bodies;
    })

All-still :
    (p : ℕ) (f : ℕ → Bool) (xs : List ℕ)
    → NotIn p xs
    → All (λ q. f q ≡ true) xs
    → All (λ q. (if p == q then false else f q) ≡ true) xs
All-still p f [] n h = tt
All-still p f (x ∷ xs) (n, ns) (e, h) = (rw (ne→== p x (λ z. n (sym z))) e, All-still p f xs ns h)

pub released-Shows :
    (p : ℕ) (list : List Timer) (m : Memory)
    → p ≢ m.head
    → Absent p list
    → Shows m list
    → Shows (released p m) list
released-Shows p list m n a r = record {
  ring = record {
    distinct = r.ring.distinct;
    live =
        All-still p m.links.live (m.head ∷ addresses list) ((λ z. n (sym z)), Absent-NotIn p list a)
          r.ring.live;
    forth = r.ring.forth;
    back = r.ring.back;
  };
  bodies = r.bodies;
}
