-- ===== src/Timer/Pointers/Calls.antt =====
-- What the calls of src/bt_timer.c do to a ring in memory.
use mathlib.Core.Path.{subst}
use bt_server.Common.{
  ℕ, ◌+◌, ◌<◌, ◌≡◌, ◌≢◌, refl, sym, ◌∙◌, ap, inl, inr, Bool, true, false, some, List, ◌==◌, ==-refl,
  ne→==, Bool-cases, if◌then◌else◌, length, arith,
}
use bt_server.Links.{Store, list_del}
use bt_server.Timer.{Timer, find}
use bt_server.Timer.Order.{insert_sorted, Absent}
use bt_server.Timer.Operations.{without, find-address, without-Absent, fresh_timer}
use bt_server.Timer.Pointers.{
  Memory, Run, ret, with_links, with_body, allocated, released, enqueue, body_at, bt_timer_add,
  bt_timer_del, bt_timer_update,
}
use bt_server.Timer.Pointers.Shape.{Shows, Poisoned, addresses-Distinct, Absent-NotIn}
use bt_server.Timer.Pointers.Position.{body_at-live}
use bt_server.Timer.Pointers.Steps.{enqueue-Shows, list_del-Shows}
use bt_server.Timer.Pointers.Sequence.{reset, length-without}
use bt_server.Timer.Pointers.Bodies.{with_body-Shows}
use bt_server.Timer.Pointers.Blocks.{found_live, allocated-Shows, released-Shows}

-- A call comes back with a ring that stands for `list`, after `n` calls of bt_timer_add, and with the
-- blocks of `live`. What was taken out of the ring `from` in `m` stays poisoned.
abbrev pub Shown : Run Memory → Memory → List Timer → ℕ → (ℕ → Bool) → List Timer → Type 0
Shown r m from n live list =
    (m' : Memory) × (r ≡ ret m')
    × (m'.head ≡ m.head)
    × (m'.num ≡ n)
    × (m'.links.live ≡ live)
    × Shows m' list
    × (Poisoned m from → Poisoned m' list)

add_eq :
    (g address func arg interval type : ℕ) (m : Memory)
    → bt_timer_add g (some address) func arg interval type m
      ≡ enqueue g address interval
          (allocated address (fresh_timer address m.num func arg interval type) m)
unfolding bt_timer_add
add_eq g address func arg interval type m = refl

pub add-Shown :
    (g address func arg interval type : ℕ) (list : List Timer) (m : Memory)
    → length list < g
    → Shows m list
    → address ≢ m.head
    → Absent address list
    → Shown
        (bt_timer_add g (some address) func arg interval type m)
        m
        list
        (m.num + 1)
        (λ q. if address == q then true else m.links.live q)
        (insert_sorted (fresh_timer address m.num func arg interval type) list)
add-Shown g address func arg interval type list m h s n a =
    let t = fresh_timer address m.num func arg interval type in
    let m₁ = allocated address t m in
    let (st, put, live, r, put_in) =
      enqueue-Shows g t list m₁ h (allocated-Shows address t list m a s) (rw (==-refl address) refl)
        ((λ z. n (sym z)), Absent-NotIn address list a) (rw (==-refl address) refl) in
    (
      with_links m₁ st,
      add_eq g address func arg interval type m ∙ put,
      refl,
      refl,
      live,
      r,
      λ h. put_in (λ q k ne o. h q (rw (ne→== address q ne) at k) o),
    )

del_eq :
    (p : ℕ) (m : Memory) (st : Store)
    → list_del p m.links ≡ some st
    → bt_timer_del p m ≡ ret (released p (with_links m st))
unfolding bt_timer_del
del_eq p m st h = rw h refl

pub del-Shown :
    (p : ℕ) (list : List Timer) (m : Memory) {t : Timer}
    → Shows m list
    → find p list ≡ some t
    → Shown
        (bt_timer_del p m)
        m
        list
        m.num
        (λ q. if p == q then false else m.links.live q)
        (without p list)
del-Shown p list m {t} s e =
    let (st, taken, live, r, cut) = list_del-Shows p t list m s e in
    let at : t.address ≡ p = find-address p list e in
    let d = addresses-Distinct list s.ring.distinct.1 in
    let off : p ≢ m.head = λ z. (found_live p list m s e).1 (at ∙ z) in
    (
      released p (with_links m st),
      del_eq p m st (ap (λ q. list_del q m.links) (sym at) ∙ taken),
      refl,
      refl,
      ap (λ f q. if p == q then false else f q) live,
      released-Shows p (without p list) (with_links m st) off (without-Absent p list d) r,
      λ h q k o. elim (Bool-cases (p == q)) [
        | inl z ↦ absurd (cc (rw z at k))
        | inr z ↦ cut h q (rw z at k) o
      ],
    )

update_eq :
    (g p : ℕ) (t : Timer) (m : Memory) (st : Store)
    → list_del p m.links ≡ some st
    → body_at p m ≡ some t
    → bt_timer_update g p m ≡ enqueue g p t.interval (with_body p (reset t) (with_links m st))
unfolding bt_timer_update
update_eq g p t m st h b = rw (h, b) refl

update_at :
    (g : ℕ) (t : Timer) (list : List Timer) (m : Memory)
    → length list < g
    → Shows m list
    → find t.address list ≡ some t
    → Shown
        (bt_timer_update g t.address m)
        m
        list
        m.num
        m.links.live
        (insert_sorted (reset t) (without t.address list))
update_at g t list m h s e =
    let p = t.address in
    let rest = without p list in
    let (l, off, b) = found_live p list m s e in
    let (st, taken, live, r, cut) = list_del-Shows p t list m s e in
    let a = without-Absent p list (addresses-Distinct list s.ring.distinct.1) in
    let m₁ = with_body p (reset t) (with_links m st) in
    let short = length-without p list e in
    let (st', put, live', r', put_in) =
      enqueue-Shows g (reset t) rest m₁ (omega arith)
        (with_body-Shows p (reset t) (with_links m st) rest a r) (ap (λ f. f p) live ∙ l)
        ((λ z. off (sym z)), Absent-NotIn p rest a) (rw (==-refl p) refl) in
    (
      with_links m₁ st',
      update_eq g p t m st taken (body_at-live p m l ∙ ap some b) ∙ put,
      refl,
      refl,
      live' ∙ live,
      r',
      λ h. put_in (λ q k _ o. cut h q k o),
    )

pub update-Shown :
    (g p : ℕ) (list : List Timer) (m : Memory) {t : Timer}
    → length list < g
    → Shows m list
    → find p list ≡ some t
    → Shown
        (bt_timer_update g p m)
        m
        list
        m.num
        m.links.live
        (insert_sorted (reset t) (without p list))
update-Shown g p list m {t} h s e =
    let at : t.address ≡ p = find-address p list e in
    subst
      (λ q.
        Shown (bt_timer_update g q m) m list m.num m.links.live
          (insert_sorted (reset t) (without q list)))
      at (update_at g t list m h s (subst (λ q. find q list ≡ some t) (sym at) e))
