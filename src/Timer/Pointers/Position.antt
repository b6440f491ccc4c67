-- ===== src/Timer/Pointers/Position.antt =====
-- get_position of src/bt_timer.c walks the ring to the entry that the sequence names.
use bt_server.Common.{
  ℕ, zero, suc, ◌<◌, ◌≡◌, refl, ◌∙◌, ap, inl, inr, true, false, some, List, [], ◌∷◌, ltb, ◌==◌,
  ==-refl, ne→==, Bool-cases, All, length, arith,
}
use bt_server.Links.{next_at}
use bt_server.Links.Ring.{NotIn, Leads}
use bt_server.Links.Effects.{next_at-live}
use bt_server.Timer.{Timer}
use bt_server.Timer
use bt_server.Timer.Pointers.{Memory, ret, ◌>>=◌, lift, position_loop, get_position, body_at}
use bt_server.Timer.Pointers.Shape.{addresses, Shows, node}

pub body_at-live : (p : ℕ) (m : Memory) → m.links.live p ≡ true → body_at p m ≡ some (m.body p)
unfolding body_at
body_at-live p m h = rw h refl

position_step :
    (g interval vec : ℕ) (t : Timer) (m : Memory)
    → (vec == m.head) ≡ false
    → body_at vec m ≡ some t
    → position_loop (suc g) interval vec m ≡ (elim (ltb interval t.interval) [
      | true ↦ ret vec
      | false ↦ lift (next_at vec m.links) >>= λ n. position_loop g interval n m
    ])
unfolding position_loop
position_step g interval vec t m h b = rw (position_loop, h, b) refl

position_loop-from :
    (g interval p : ℕ) (list : List Timer) (m : Memory)
    → length list < g
    → NotIn m.head (addresses list)
    → All (λ q. m.links.live q ≡ true) (addresses list)
    → All (λ t. m.body t.address ≡ t) list
    → Leads m.links.next p (addresses list) m.head
    → position_loop g interval (m.links.next p) m
      ≡ ret (node m.head (Timer.get_position interval list))
unfolding position_loop Timer.get_position
position_loop-from zero interval p list m h n l b e = absurd (omega arith)
position_loop-from (suc g) interval p [] m h n l b e =
    rw e (rw (position_loop, ==-refl m.head) refl)
position_loop-from (suc g) interval p (t ∷ rest) m h (n, ns) (l, ls) (b, bs) (e, r) =
    ap (λ v. position_loop (suc g) interval v m) e
    ∙ position_step g interval t.address t m (ne→== t.address m.head n)
        (body_at-live t.address m l ∙ ap some b)
    ∙ elim (Bool-cases (ltb interval t.interval)) [
      | inl c ↦ rw c refl
      | inr c ↦
          rw (c, next_at-live t.address m.links l)
            (position_loop-from g interval t.address rest m (omega arith) ns ls bs r)
    ]

-- On a ring of fewer timers than there is fuel get_position finds the entry, or the head, that the
-- sequence names.
pub get_position_lem :
    (g interval : ℕ) (list : List Timer) (m : Memory)
    → length list < g
    → Shows m list
    → get_position g interval m ≡ ret (node m.head (Timer.get_position interval list))
unfolding get_position
get_position_lem g interval list m h r = rw (next_at-live m.head m.links r.ring.live.0) (
    position_loop-from g interval m.head list m h r.ring.distinct.0 r.ring.live.1 r.bodies
      r.ring.forth)
