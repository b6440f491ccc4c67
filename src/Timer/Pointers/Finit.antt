-- ===== src/Timer/Pointers/Finit.antt =====
-- bt_timer_init and bt_timer_finit of src/bt_timer.c in memory.
use mathlib.Core.Path.{subst}
use bt_server.Common.{
  ℕ, zero, suc, ◌<◌, ◌≡◌, refl, sym, ◌∙◌, ap, inl, false, some, List, [], ◌∷◌, ◌==◌, ==-refl, ne→==,
  length, arith,
}
use bt_server.Links.{next_at, write, write_all}
use bt_server.Links.Ring.{first}
use bt_server.Links.Effects.{next_at-live}
use bt_server.Timer.{Timer}
use bt_server.Timer.Operations.{without}
use bt_server.Common.{true, false, Bool-cases, inl, inr, ◌==◌, ◌≢◌}
use bt_server.Links.{set, write, write_all}
use bt_server.Timer.{find}
use bt_server.Timer.Operations.{fresh_timer}
use bt_server.Timer.Pointers.{
  position_loop, get_position, enqueue, bt_timer_add, bt_timer_init, bt_timer_finit, cleared,
  allocated, with_links, undefined, body_at,
}
use bt_server.Timer.Pointers.{Memory, ret, bt_timer_del, del_loop, del_all}
use bt_server.Timer.Pointers.Shape.{addresses, Shows}
use bt_server.Timer.Pointers.Refine.{find-first}
use bt_server.Timer.Pointers.Client.{Stands, Steps, del_step}

not_found : (p : ℕ) {t : Timer} → find p [] ≡ some t → ⊥
unfolding find
not_found p h = cc

loop_end : (f tmp : ℕ) (m : Memory) → del_loop (suc f) m.head tmp m ≡ ret m
unfolding del_loop
loop_end f tmp m = rw (del_loop, ==-refl m.head) refl

loop_round :
    (f vec tmp n : ℕ) (m m' : Memory)
    → (vec == m.head) ≡ false
    → bt_timer_del vec m ≡ ret m'
    → next_at tmp m'.links ≡ some n
    → del_loop (suc f) vec tmp m ≡ del_loop f tmp n m'
unfolding del_loop
loop_round f vec tmp n m m' h e k = rw (del_loop, h, e, k) refl

without_first : (t : Timer) (rest : List Timer) → without t.address (t ∷ rest) ≡ rest
without_first t rest = rw (==-refl t.address) refl

-- The links of the entry in front, or of the head
second : (head : ℕ) → List Timer → ℕ
second head [] = head
second head (t ∷ rest) = first (addresses rest) head

first-next :
    (list : List Timer) (m : Memory)
    → Shows m list
    → next_at (first (addresses list) m.head) m.links ≡ some (second m.head list)
unfolding second
first-next [] m r = next_at-live m.head m.links r.ring.live.0 ∙ ap some r.ring.forth
first-next (t ∷ []) m r = next_at-live t.address m.links r.ring.live.1.0 ∙ ap some r.ring.forth.1
first-next (t ∷ u ∷ rest) m r =
    next_at-live t.address m.links r.ring.live.1.0 ∙ ap some r.ring.forth.1.0

first-forth :
    (list : List Timer) (m : Memory)
    → Shows m list
    → m.links.next m.head ≡ first (addresses list) m.head
first-forth [] m r = r.ring.forth
first-forth (t ∷ rest) m r = r.ring.forth.0

del_loop-Steps :
    (f : ℕ) (list : List Timer) (m : Memory)
    → length list < f
    → Stands m list
    → Steps (del_loop f (first (addresses list) m.head) (second m.head list) m) m.head m.num []
unfolding second
del_loop-Steps zero list m h s = absurd (omega arith)
del_loop-Steps (suc f) [] m h s = (m, loop_end f m.head m, refl, refl, s)
del_loop-Steps (suc f) (t ∷ rest) m h s =
    let (m₁, e, hd, nm, st) = del_step t.address (t ∷ rest) m s (find-first t rest) in
    let st₁ = subst (λ l. Stands m₁ l) (without_first t rest) st in
    let (m', loop, hd', nm', none_left) = del_loop-Steps f rest m₁ (omega arith) st₁ in
    let ahead =
      subst (λ k. next_at (first (addresses rest) k) m₁.links ≡ some (second k rest)) hd
        (first-next rest m₁ st₁.shows) in
    let loop' =
      subst (λ k. del_loop f (first (addresses rest) k) (second k rest) m₁ ≡ ret m') hd loop in
    (
      m',
      loop_round f t.address (first (addresses rest) m.head) (second m.head rest) m m₁
            (ne→== t.address m.head s.shows.ring.distinct.0.0) e ahead
          ∙ loop',
      hd' ∙ hd,
      nm' ∙ nm,
      none_left,
    )

del_all_eq :
    (f vec tmp : ℕ) (m : Memory)
    → next_at m.head m.links ≡ some vec
    → next_at vec m.links ≡ some tmp
    → del_all f m ≡ del_loop f vec tmp m
unfolding del_all
del_all_eq f vec tmp m h e = rw (h, e) refl

del_all-Steps :
    (f : ℕ) (list : List Timer) (m : Memory)
    → length list < f
    → Stands m list
    → Steps (del_all f m) m.head m.num []
del_all-Steps f list m h s =
    let (m', loop, hd, nm, none_left) = del_loop-Steps f list m h s in
    (
      m',
      del_all_eq f (first (addresses list) m.head) (second m.head list) m
            (next_at-live m.head m.links s.shows.ring.live.0 ∙ ap some (first-forth list m s.shows))
            (first-next list m s.shows)
          ∙ loop,
      hd,
      nm,
      none_left,
    )

init_lem :
    (m : Memory)
    → m.links.live m.head ≡ true
    → bt_timer_init m
      ≡ ret (
          with_links (cleared m) (record m.links {
            next = set m.head m.head (set m.head 0 m.links.next);
            prev = set m.head m.head (set m.head 0 m.links.prev);
          }))
unfolding bt_timer_init write_all
init_lem m l = rw (write, l, write, l) refl

-- INIT_LIST_HEAD makes the head a ring without timers.
init-Stands :
    (m : Memory)
    → m.links.live m.head ≡ true
    → ((p : ℕ) → m.links.live p ≡ true → p ≡ m.head)
    → Steps (bt_timer_init m) m.head 0 []
init-Stands m l alone = (
  _,
  init_lem m l,
  refl,
  refl,
  record {
    shows = record {
      ring = record {
        distinct = (tt, tt);
        live = (l, tt);
        forth = rw (==-refl m.head) refl;
        back = (rw (==-refl m.head, ==-refl m.head) refl, tt);
      };
      bodies = tt;
    };
    tidy = λ p k. inl (alone p k);
  },
)

finit_eq : (f : ℕ) (m m' : Memory) → del_all f m ≡ ret m' → bt_timer_finit f m ≡ ret (cleared m')
unfolding bt_timer_finit
finit_eq f m m' h = rw h refl

position_null :
    (g interval : ℕ) (m : Memory)
    → m.head ≢ 0
    → m.links.live 0 ≡ false
    → m.links.live m.head ≡ true
    → m.links.next m.head ≡ 0
    → get_position (suc g) interval m ≡ undefined
unfolding get_position next_at body_at
position_null g interval m ne z l e =
    rw (l, position_loop, e, ne→== 0 m.head (λ k. ne (sym k)), body_at, e, z) refl

add_null :
    (g address func arg interval type : ℕ) (m : Memory)
    → m.head ≢ 0
    → address ≢ 0
    → m.links.live 0 ≡ false
    → m.links.live m.head ≡ true
    → m.links.next m.head ≡ 0
    → bt_timer_add (suc g) (some address) func arg interval type m ≡ undefined
unfolding bt_timer_add enqueue
add_null g address func arg interval type m ne ad z l e =
    let t = fresh_timer address m.num func arg interval type in
    let live : (allocated address t m).links.live m.head ≡ true =
      elim (Bool-cases (address == m.head)) [ inl k ↦ rw k refl | inr k ↦ rw k l ] in
    rw (position_null g interval (allocated address t m) ne (rw (ne→== address 0 ad) z) live e) refl

-- From a ring whose memory holds nothing but its head and its timers, bt_timer_finit comes back, with
-- fuel above the number of timers: every timer is freed, and only the head is still there. Then the
-- head leads to NULL, so that bt_timer_add is undefined, until bt_timer_init makes a ring without
-- timers of it. NULL is no address in memory.
pub bt_timer_finit-bt_timer_init :
    (f : ℕ) (list : List Timer) (m : Memory)
    → length list < f
    → Stands m list
    → m.links.live 0 ≡ false
    → (m' : Memory) × (bt_timer_finit f m ≡ ret m')
      × ((p : ℕ) → m'.links.live p ≡ true → p ≡ m.head)
      × ((g address func arg interval type : ℕ)
          → address ≢ 0
          → bt_timer_add (suc g) (some address) func arg interval type m' ≡ undefined)
      × Steps (bt_timer_init m') m.head 0 []
bt_timer_finit-bt_timer_init f list m h s z =
    let (m', run, hd, nm, st) = del_all-Steps f list m h s in
    let alone : (p : ℕ) → m'.links.live p ≡ true → p ≡ m'.head =
      λ p l. elim (st.tidy p l) [ inl e ↦ e | inr (t, e) ↦ absurd (not_found p e) ] in
    let l = st.shows.ring.live.0 in
    let head : m'.head ≢ 0 =
      λ e. cc (subst (λ p. m.links.live p ≡ true) (sym hd ∙ e) s.shows.ring.live.0, z) in
    let null : m'.links.live 0 ≡ false = elim (Bool-cases (m'.links.live 0)) [
      | inl k ↦ absurd (head (sym (alone 0 k)))
      | inr k ↦ k
    ] in
    let (m'', ready, hd', nm', st') = init-Stands (cleared m') l alone in
    (
      cleared m',
      finit_eq f m m' run,
      (λ p k. alone p k ∙ hd),
      (λ g address func arg interval type n.
          add_null g address func arg interval type (cleared m') head n null l
            (rw (==-refl m'.head) refl)),
      (m'', ready, hd' ∙ hd, nm', st'),
    )
