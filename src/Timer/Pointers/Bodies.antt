-- ===== src/Timer/Pointers/Bodies.antt =====
-- Assignments to the fields of a timer in memory, as src/bt_timer.c makes them.
use mathlib.Core.Path.{subst}
use bt_server.Common.{
  ℕ, ◌≡◌, refl, sym, inl, inr, List, [], ◌∷◌, All, ◌==◌, ==_iff, ==-refl, ne→==, Bool-cases,
}
use bt_server.Links.Ring.{IsRing}
use bt_server.Timer.{Timer, replace}
use bt_server.Timer.Order.{Absent, Distinct}
use bt_server.Timer.Pointers.{Memory, with_body}
use bt_server.Timer.Pointers.Shape.{Shows, addresses-replace, addresses-Distinct}

-- Other timers keep their fields.
All-with_body :
    (p : ℕ) (t : Timer) (m : Memory) (list : List Timer)
    → Absent p list
    → All (λ u. m.body u.address ≡ u) list
    → All (λ u. (with_body p t m).body u.address ≡ u) list
All-with_body p t m [] a b = tt
All-with_body p t m (u ∷ rest) (n, a) (e, b) =
    (rw (ne→== p u.address (λ z. n (sym z))) e, All-with_body p t m rest a b)

pub with_body-Shows :
    (p : ℕ) (t : Timer) (m : Memory) (list : List Timer)
    → Absent p list
    → Shows m list
    → Shows (with_body p t m) list
with_body-Shows p t m list a r = record {
  ring = r.ring;
  bodies = All-with_body p t m list a r.bodies;
}

All-replaced :
    (t : Timer) (m : Memory) (list : List Timer)
    → Distinct list
    → All (λ u. m.body u.address ≡ u) list
    → All (λ u. (with_body t.address t m).body u.address ≡ u) (replace t list)
unfolding replace
All-replaced t m [] d b = tt
All-replaced t m (u ∷ rest) (a, d) (e, b) = elim (Bool-cases (u.address == t.address)) [
  | inl q ↦
      let eq = (==_iff u.address t.address).0 q in
      rw q (
        rw (==-refl t.address) refl,
        All-with_body t.address t m rest (subst (λ p. Absent p rest) eq a) b,
      )
  | inr q ↦ rw q (
    rw (ne→== t.address u.address (λ z. cc (q, z, ==-refl t.address))) e,
    All-replaced t m rest d b,
  )
]

pub replace-Shows :
    (t : Timer) (m : Memory) (list : List Timer)
    → Shows m list
    → Shows (with_body t.address t m) (replace t list)
replace-Shows t m list r = record {
  ring = subst (λ xs. IsRing m.head xs m.links) (sym (addresses-replace t list)) r.ring;
  bodies = All-replaced t m list (addresses-Distinct list r.ring.distinct.1) r.bodies;
}
