-- ===== src/Timer/Reach.antt =====
-- Any order of calls of src/bt_timer.c, with SIGALRM between them: the ring stays in order and holds
-- blocks that are allocated.
use mathlib.Core.Path.{subst}
use bt_server.Common.{
  ℕ, ◌≡◌, refl, ap, inl, inr, Bool, true, false, Option, none, some, List, ◌∷◌, All,
}
use bt_server.Timer.{
  Timer, TimerList, Call, done, find, list_del, free_block, bt_timer_init, bt_timer_add,
  bt_timer_del, bt_timer_update, bt_timer_func, bt_timer_finit,
}
use bt_server.Timer.Order.{insert_sorted, Absent, All-insert_sorted}
use bt_server.Timer.Operations.{
  IsQueue, without, fresh_timer, with_timer, without-Absent, bt_timer_add-del, bt_timer_update_lem,
  bt_timer_finit_lem, bt_timer_del_eq, All-without, without-Sorted, without-Distinct,
}
use bt_server.Timer.Ring.{All-find, IsRing, Leaves, left, bt_timer_func-IsRing}
use bt_server.Timer.Blocks.{
  Held, Fresh, NoRepeats, Fresh-ne, All-mapped, All-both, list_del-cases, free_block-Held,
  free_block-NoRepeats, free_all-NoRepeats,
}

-- A call, or a run of the handler that ends.
pub data Step : TimerList → TimerList → Type 0 where
  add :
      {s s' : TimerList} {t : Timer} (address func arg interval type : ℕ)
      → Fresh address s.blocks
      → bt_timer_add (some address) func arg interval type s ≡ some (s', t)
      → Step s s'
  del : {s s' : TimerList} (p : ℕ) → bt_timer_del p s ≡ some s' → Step s s'
  update : {s s' : TimerList} (p : ℕ) → bt_timer_update p s ≡ some s' → Step s s'
  tick :
      {s : TimerList} {list : List Timer} {calls : List Call} (f : ℕ)
      → bt_timer_func f s.list ≡ done list calls
      → Step s (record s { list = list })
  init :
      {s : TimerList} (signal_ok setitimer_ok : Bool) (handler_func : ℕ)
      → Step s (bt_timer_init signal_ok setitimer_ok handler_func s).0
  finit : {s s' : TimerList} → bt_timer_finit s ≡ some s' → Step s s'

pub data Reach (s : TimerList) : TimerList → Type 0 where
  here : Reach s s
  next : {t u : TimerList} → Reach s t → Step t u → Reach s u

-- The ring is in order, without repeats, and its nodes are allocated blocks.
pub record IsSound (s : TimerList) : Type 0 where
  pub ring : IsRing (Held s.blocks) s.list
  pub blocks : NoRepeats s.blocks

pub queue : {s : TimerList} → IsSound s → IsQueue s
queue v = record { sorted = v.ring.sorted; distinct = v.ring.distinct }

sound :
    (s : TimerList)
    → IsQueue s
    → All (λ t. Held s.blocks t.address) s.list
    → NoRepeats s.blocks
    → IsSound s
sound s q a b = record {
  ring = record { sorted = q.sorted; distinct = q.distinct; nodes = a };
  blocks = b;
}

add-IsSound :
    (s : TimerList) (address func arg interval type : ℕ)
    → Fresh address s.blocks
    → IsSound s
    → IsSound (with_timer s (fresh_timer address s.num func arg interval type))
add-IsSound s address func arg interval type f v =
    let t = fresh_timer address s.num func arg interval type in
    let absent : Absent address s.list =
      All-mapped s.list (λ u h. Fresh-ne address s.blocks u.address f h) v.ring.nodes in
    sound (with_timer s t) (bt_timer_add-del s address func arg interval type (queue v) absent).1
      (All-insert_sorted (λ u. Held (address ∷ s.blocks) u.address) t s.list (inl refl)
        (All-mapped s.list (λ u h. inr h) v.ring.nodes))
      (f, v.blocks)

del-IsSound :
    (s : TimerList) (p : ℕ)
    → IsSound s
    → IsSound (record s { list = without p s.list; blocks = free_block p s.blocks })
del-IsSound s p v = record {
  ring = record {
    sorted = without-Sorted p s.list v.ring.sorted;
    distinct = without-Distinct p s.list v.ring.distinct;
    nodes =
        All-both (without p s.list) (λ u ne h. free_block-Held p s.blocks u.address ne h)
          (without-Absent p s.list v.ring.distinct) (All-without _ p s.list v.ring.nodes);
  };
  blocks = free_block-NoRepeats p s.blocks v.blocks;
}

update-IsSound :
    (s : TimerList) (p : ℕ) {t : Timer}
    → find p s.list ≡ some t
    → IsSound s
    → IsSound (record s { list = insert_sorted (record t { elapse = 0 }) (without p s.list) })
update-IsSound s p {t} h v =
    sound (record s { list = insert_sorted (record t { elapse = 0 }) (without p s.list) })
      (bt_timer_update_lem s p (queue v) h).1
      (All-insert_sorted _ (record t { elapse = 0 }) (without p s.list)
        (All-find (λ u. Held s.blocks u.address) p s.list h v.ring.nodes)
        (All-without _ p s.list v.ring.nodes))
      v.blocks

same : {A : Type 0} {a b : A} {x : Option A} → x ≡ some a → x ≡ some b → a ≡ b
same h g = cc

ring_left :
    {R : List Timer → Type 0} {list : List Timer} {calls : List Call}
    → Leaves R (done list calls)
    → R list
ring_left (left h) = h

pub del_failed : (p : ℕ) (s : TimerList) → list_del p s.list ≡ none → bt_timer_del p s ≡ none
unfolding bt_timer_del
del_failed p s h = rw (h, bt_timer_del) refl

pub update_failed : (p : ℕ) (s : TimerList) → find p s.list ≡ none → bt_timer_update p s ≡ none
unfolding bt_timer_update
update_failed p s h = rw (h, bt_timer_update) refl

updated :
    (s s' : TimerList) (p : ℕ) (o : Option Timer)
    → find p s.list ≡ o
    → bt_timer_update p s ≡ some s'
    → IsSound s
    → IsSound s'
updated s s' p none h e v = absurd (cc (update_failed p s h, e))
updated s s' p (some t) h e v =
    subst IsSound (same (bt_timer_update_lem s p (queue v) h).0 e) (update-IsSound s p h v)

init-IsSound :
    (s : TimerList) (signal_ok setitimer_ok : Bool) (handler_func : ℕ)
    → IsSound s
    → IsSound (bt_timer_init signal_ok setitimer_ok handler_func s).0
unfolding bt_timer_init
init-IsSound s true setitimer_ok h v = record {
  ring = record { sorted = tt; distinct = tt; nodes = tt };
  blocks = v.blocks;
}
init-IsSound s false setitimer_ok h v = record {
  ring = record { sorted = tt; distinct = tt; nodes = tt };
  blocks = v.blocks;
}

pub Step-IsSound : {s s' : TimerList} → Step s s' → IsSound s → IsSound s'
Step-IsSound {s} {s'} (add {t = t} address func arg interval type f e) v =
    let a : Absent address s.list =
      All-mapped s.list (λ u h. Fresh-ne address s.blocks u.address f h) v.ring.nodes in
    subst IsSound
      (ap (λ (r : TimerList × Timer). r.0)
        (same (bt_timer_add-del s address func arg interval type (queue v) a).0 e))
      (add-IsSound s address func arg interval type f v)
Step-IsSound {s} {s'} (del p e) v = elim (list_del-cases p s.list) [
  | inl h ↦ subst IsSound (same (bt_timer_del_eq p s h) e) (del-IsSound s p v)
  | inr h ↦ absurd (cc (del_failed p s h, e))
]
Step-IsSound {s} {s'} (update p e) v = updated s s' p (find p s.list) refl e v
Step-IsSound {s} (tick {list = list} f e) v = record {
  ring =
      ring_left (subst (Leaves (IsRing (Held s.blocks))) e (bt_timer_func-IsRing f s.list v.ring));
  blocks = v.blocks;
}
Step-IsSound {s} (init signal_ok setitimer_ok handler_func) v =
    init-IsSound s signal_ok setitimer_ok handler_func v
Step-IsSound {s} {s'} (finit e) v = subst IsSound (same (bt_timer_finit_lem s) e) (record {
  ring = record { sorted = tt; distinct = tt; nodes = tt };
  blocks = free_all-NoRepeats s.list s.blocks v.blocks;
})

-- From a sound state, such as an empty ring, every sequence of calls of bt_timer_add (with a fresh
-- block from malloc), bt_timer_del, bt_timer_init, bt_timer_update and bt_timer_finit, which counts as
-- leaving an empty ring, in any order and with any arguments that do not run into undefined behaviour,
-- and of runs of the SIGALRM handler that end, leads to a sound state: the ring is in the order of the
-- intervals and without repeats, and every node in it is a block that is allocated.
pub Reach-IsSound : {s s' : TimerList} → IsSound s → Reach s s' → IsSound s'
Reach-IsSound v here = v
Reach-IsSound v (next r e) = Step-IsSound e (Reach-IsSound v r)
