-- ===== src/Timer/Pointers/Client.antt =====
-- The calls of src/bt_timer.c in memory, and the state that they keep.
use mathlib.Core.Path.{subst}
use bt_server.Common.{
  ℕ, ◌+◌, ◌<◌, ◌≡◌, ◌≢◌, ◌⊎◌, refl, sym, ◌∙◌, ap, inl, inr, true, false, none, some, List, [], ◌∷◌,
  ◌==◌, Bool-cases, length,
}
use bt_server.Links.{Store, prev_at, list_del}
use bt_server.Timer.{Timer, find}
use bt_server.Timer.Order.{insert_sorted, Absent}
use bt_server.Timer.Operations.{without, find-address, without-Absent, fresh_timer}
use bt_server.Timer.Table.{Op, Answer, add, del, update, look, added, seen}
use bt_server.Timer.Table.Find.{find-insert_sorted, find-without}
use bt_server.Timer.Pointers.{
  Memory, Run, ret, undefined, ◌>>=◌, body_at, bt_timer_add, bt_timer_del, bt_timer_update,
}
use bt_server.Timer.Pointers.Shape.{Shows, addresses-Distinct}
use bt_server.Timer.Pointers.Sequence.{reset}
use bt_server.Timer.Pointers.Calls.{add-Shown, del-Shown, update-Shown}

-- What a client of the code in memory sees.
unfoldable pub run : ℕ → List Op → Memory → Run (List Answer)
unfolding bt_timer_add bt_timer_del bt_timer_update body_at
run g [] m = ret []
run g (add address func arg interval type ∷ ops) m = do
  m' ← bt_timer_add g (some address) func arg interval type m
  xs ← run g ops m'
  ret (added (m'.body address) ∷ xs)
run g (del p ∷ ops) m = bt_timer_del p m >>= λ m'. run g ops m'
run g (update p ∷ ops) m = bt_timer_update g p m >>= λ m'. run g ops m'
run g (look p ∷ ops) m = run g ops m >>= λ xs. ret (seen (body_at p m) ∷ xs)

-- The ring stands for the list, and nothing but its nodes and its head is in memory.
pub record Stands (m : Memory) (list : List Timer) : Type 0 where
  pub shows : Shows m list
  pub tidy : (p : ℕ) → m.links.live p ≡ true → (p ≡ m.head) ⊎ ((t : Timer) × (find p list ≡ some t))

-- An address that no timer has is not in memory.
pub gone :
    (p : ℕ) (list : List Timer) (m : Memory)
    → Stands m list
    → p ≢ m.head
    → find p list ≡ none
    → m.links.live p ≡ false
gone p list m s n e = elim (Bool-cases (m.links.live p)) [
  | inl l ↦ absurd (elim (s.tidy p l) [ inl h ↦ n h | inr (t, h) ↦ cc (e, h) ])
  | inr l ↦ l
]

-- A call comes back with a ring that stands for `list`, after `n` calls of bt_timer_add.
abbrev pub Steps : Run Memory → ℕ → ℕ → List Timer → Type 0
Steps r head n list =
    (m' : Memory) × (r ≡ ret m') × (m'.head ≡ head) × (m'.num ≡ n) × Stands m' list

pub add_step :
    (g address func arg interval type : ℕ) (list : List Timer) (m : Memory)
    → length list < g
    → Stands m list
    → address ≢ m.head
    → Absent address list
    → let t = fresh_timer address m.num func arg interval type in
      Steps
        (bt_timer_add g (some address) func arg interval type m)
        m.head
        (m.num + 1)
        (insert_sorted t list)
add_step g address func arg interval type list m h s n a =
    let t = fresh_timer address m.num func arg interval type in
    let (m', e, hd, nm, live, r, cut) =
      add-Shown g address func arg interval type list m h s.shows n a in
    (
      m',
      e,
      hd,
      nm,
      record {
        shows = r;
        tidy = λ p l. elim (Bool-cases (address == p)) [
          | inl z ↦ inr (t, find-insert_sorted t list p a ∙ rw z refl)
          | inr z ↦ elim (s.tidy p (rw z at (sym (ap (λ f. f p) live) ∙ l))) [
            | inl y ↦ inl (y ∙ sym hd)
            | inr (u, y) ↦ inr (u, find-insert_sorted t list p a ∙ rw z y)
          ]
        ];
      },
    )

pub del_step :
    (p : ℕ) (list : List Timer) (m : Memory) {t : Timer}
    → Stands m list
    → find p list ≡ some t
    → Steps (bt_timer_del p m) m.head m.num (without p list)
del_step p list m {t} s e =
    let (m', run, hd, nm, live, r, cut) = del-Shown p list m s.shows e in
    let d = addresses-Distinct list s.shows.ring.distinct.1 in
    (
      m',
      run,
      hd,
      nm,
      record {
        shows = r;
        tidy = λ q l. elim (Bool-cases (p == q)) [
          | inl z ↦ absurd (cc (rw z at (sym (ap (λ f. f q) live) ∙ l)))
          | inr z ↦ elim (s.tidy q (rw z at (sym (ap (λ f. f q) live) ∙ l))) [
            | inl k ↦ inl (k ∙ sym hd)
            | inr (u, k) ↦ inr (u, find-without p list q d ∙ rw z k)
          ]
        ];
      },
    )

pub list_del_dead : (p : ℕ) (s : Store) → s.live p ≡ false → list_del p s ≡ none
unfolding list_del prev_at
list_del_dead p s h = rw h refl

pub del_missing :
    (p : ℕ) (list : List Timer) (m : Memory)
    → Stands m list
    → p ≢ m.head
    → find p list ≡ none
    → bt_timer_del p m ≡ undefined
unfolding bt_timer_del
del_missing p list m s n e = rw (list_del_dead p m.links (gone p list m s n e)) refl

pub update_missing :
    (g p : ℕ) (list : List Timer) (m : Memory)
    → Stands m list
    → p ≢ m.head
    → find p list ≡ none
    → bt_timer_update g p m ≡ undefined
unfolding bt_timer_update
update_missing g p list m s n e = rw (list_del_dead p m.links (gone p list m s n e)) refl

pub update_step :
    (g p : ℕ) (list : List Timer) (m : Memory) {t : Timer}
    → length list < g
    → Stands m list
    → find p list ≡ some t
    → Steps (bt_timer_update g p m) m.head m.num (insert_sorted (reset t) (without p list))
update_step g p list m {t} h s e =
    let (m', run, hd, nm, live, r, cut) = update-Shown g p list m h s.shows e in
    let rest = without p list in
    let d = addresses-Distinct list s.shows.ring.distinct.1 in
    let at : t.address ≡ p = find-address p list e in
    let a : Absent t.address rest = subst (λ q. Absent q rest) (sym at) (without-Absent p list d) in
    (
      m',
      run,
      hd,
      nm,
      record {
        shows = r;
        tidy = λ q k. elim (Bool-cases (p == q)) [
          | inl z ↦ inr (reset t, find-insert_sorted (reset t) rest q a ∙ rw (at, z) refl)
          | inr z ↦ elim (s.tidy q (sym (ap (λ f. f q) live) ∙ k)) [
            | inl y ↦ inl (y ∙ sym hd)
            | inr (u, y) ↦ inr (
              u,
              find-insert_sorted (reset t) rest q a ∙ rw (at, z) (find-without p list q d ∙ rw z y),
            )
          ]
        ];
      },
    )
