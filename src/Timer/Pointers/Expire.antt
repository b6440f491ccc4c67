-- ===== src/Timer/Pointers/Expire.antt =====
-- A round of the handler of src/bt_timer.c in memory.
use mathlib.Core.Path.{subst}
use bt_server.Common.{
  ℕ, ◌<◌, ◌≤◌, ◌≡◌, ◌≢◌, refl, sym, ◌∙◌, ap, inl, inr, true, false, Option, none, some, List, ◌∷◌,
  leb, not, ◌==◌, ==-refl, Bool-cases, if◌then◌else◌, length, arith,
}
use bt_server.Links.{Store, list_del}
use bt_server.Links.Ring.{NotIn}
use bt_server.Timer.{Timer, Call, call_of, bt_timer_single, find, replace}
use bt_server.Timer
use bt_server.Timer.Order.{insert_sorted, Absent}
use bt_server.Timer.Operations.{without, without-Absent}
use bt_server.Timer.Ring.{All-find}
use bt_server.Timer.Pointers.{
  Memory, Run, ret, ◌>>=◌, with_links, with_body, enqueue, expire, expire_body, body_at,
}
use bt_server.Timer.Pointers.Shape.{
  addresses, Shows, Poisoned, addresses-replace, addresses-Distinct, Absent-NotIn, All-addresses,
}
use bt_server.Timer.Pointers.Position.{body_at-live}
use bt_server.Timer.Pointers.Steps.{enqueue-Shows, list_del-Shows}
use bt_server.Timer.Pointers.Bodies.{with_body-Shows, replace-Shows}
use bt_server.Timer.Pointers.Sequence.{
  aged, reset, sequence_early, sequence_due, length-without, length-insert_sorted, length-replace,
}

expire_read :
    (g p : ℕ) (t : Timer) (m : Memory) → body_at p m ≡ some t → expire g p m ≡ expire_body g p t m
unfolding expire
expire_read g p t m b = rw b refl

expire_early :
    (g p : ℕ) (t : Timer) (m : Memory)
    → body_at p m ≡ some t
    → leb t.interval (aged t).elapse ≡ false
    → expire g p m ≡ ret (with_body p (aged t) m, none)
unfolding expire_body
expire_early g p t m b h = expire_read g p t m b ∙ rw (expire_body, h) refl

expire_due :
    (g p : ℕ) (t : Timer) (m : Memory) (s : Store)
    → body_at p m ≡ some t
    → leb t.interval (aged t).elapse ≡ true
    → list_del p m.links ≡ some s
    → expire g p m ≡ (
        (elim (not (t.type == bt_timer_single)) as (λ _. Run Memory) [
          | true ↦ enqueue g p t.interval (with_body p (reset t) (with_links m s))
          | false ↦ ret (with_body p (reset t) (with_links m s))
        ])
        >>= λ r. ret (r, some (call_of t)))
unfolding expire_body
expire_due g p t m s b h e = expire_read g p t m b ∙ rw (expire_body, h, e) refl

-- The round in memory, from a ring that stands for `list`, ends like the one on the sequence.
abbrev pub Round : List Timer → ℕ → ℕ → Memory → List Timer × Option Call → Type 0
Round list g p m r =
    (m' : Memory) × (expire g p m ≡ ret (m', r.1))
    × (m'.head ≡ m.head)
    × (m'.num ≡ m.num)
    × Shows m' r.0
    × (m'.links.live ≡ m.links.live)
    × (length r.0 ≤ length list)
    × (Poisoned m list → Poisoned m' r.0)

due_round :
    (g : ℕ) (t : Timer) (list : List Timer) (m : Memory)
    → length list < g
    → Shows m list
    → find t.address list ≡ some t
    → body_at t.address m ≡ some t
    → m.links.live t.address ≡ true
    → NotIn t.address (m.head ∷ addresses (without t.address list))
    → Absent t.address (without t.address list)
    → leb t.interval (aged t).elapse ≡ true
    → Round list g t.address m (
      if not (t.type == bt_timer_single)
          then insert_sorted (reset t) (without t.address list)
          else without t.address list,
      some (call_of t),
    )
due_round g t list m h r e b l n a d =
    let p = t.address in
    let rest = without p list in
    let short = length-without p list e in
    let (s, del, live, r', cut) = list_del-Shows p t list m r e in
    let m' = with_body p (reset t) (with_links m s) in
    let shows : Shows m' rest = with_body-Shows p (reset t) (with_links m s) rest a r' in
    elim (Bool-cases (not (t.type == bt_timer_single))) [
      | inl q ↦
          let (s', put, live', r'', put_in) =
            enqueue-Shows g (reset t) rest m' (omega arith) shows (ap (λ f. f p) live ∙ l) n
              (rw (==-refl p) refl) in
          rw q (
            with_links m' s',
            expire_due g p t m s b d del ∙ rw (q, put) refl,
            refl,
            refl,
            r'',
            live' ∙ live,
            omega (arith, length-insert_sorted (reset t) rest),
            λ h. put_in (λ x k _ o. cut h x k o),
          )
      | inr q ↦
          rw q (
            m',
            expire_due g p t m s b d del ∙ rw q refl,
            refl,
            refl,
            shows,
            live,
            omega arith,
            cut,
          )
    ]

pub expire-Round :
    (g : ℕ) (t : Timer) (list : List Timer) (m : Memory)
    → length list < g
    → Shows m list
    → find t.address list ≡ some t
    → Round list g t.address m (Timer.expire t list)
expire-Round g t list m h r e =
    let p = t.address in
    let d = addresses-Distinct list r.ring.distinct.1 in
    let l : m.links.live p ≡ true =
      All-find (λ u. m.links.live u.address ≡ true) p list e
        (All-addresses (λ q. m.links.live q ≡ true) list r.ring.live.1) in
    let off : p ≢ m.head =
      All-find (λ u. u.address ≢ m.head) p list e
        (All-addresses (λ q. q ≢ m.head) list r.ring.distinct.0) in
    let b : body_at p m ≡ some t =
      body_at-live p m l ∙ ap some (All-find (λ u. m.body u.address ≡ u) p list e r.bodies) in
    let a = without-Absent p list d in
    elim (Bool-cases (leb t.interval (aged t).elapse)) [
      | inl q ↦ subst (Round list g p m) (sym (sequence_due t list q e d)) (
          due_round g t list m h r e b l ((λ z. off (sym z)), Absent-NotIn p (without p list) a) a
            q)
      | inr q ↦ subst (Round list g p m) (sym (sequence_early t list q)) (
        with_body p (aged t) m,
        expire_early g p t m b q,
        refl,
        refl,
        replace-Shows (aged t) m list r,
        refl,
        omega (arith, length-replace (aged t) list),
        λ h x k o. h x k (subst (λ xs. NotIn x (m.head ∷ xs)) (addresses-replace (aged t) list) o),
      )
    ]
