-- ===== src/Timer/Pointers/Answers.antt =====
-- The pointers of src/bt_timer.c give the answers of a table without order.
use mathlib.Core.Path.{subst}
use bt_server.Common.{
  ℕ, ◌+◌, ◌<◌, ◌≡◌, ◌≢◌, refl, sym, ◌∙◌, ap, false, Option, none, some, List, [], ◌∷◌, ==-refl,
  length, arith, mapped,
}
use bt_server.Timer.{Timer, TimerList, find, free_block}
use bt_server.Timer.Order.{insert_sorted, Absent}
use bt_server.Timer.Operations.{without, find-address, fresh_timer, with_timer}
use bt_server.Timer.Table.{
  Op, add, del, update, look, added, seen, Table, set, restarted, answers, Fresh,
}
use bt_server.Timer.Table.Find.{find-insert_sorted, Absent-find}
use bt_server.Timer.Table.Refine.{
  Represents, add-Represents, del-Represents, update-Represents, answers-del, answers-update,
}
use bt_server.Timer.Pointers.{
  Memory, ret, ◌>>=◌, lift, body_at, bt_timer_add, bt_timer_del, bt_timer_update,
}
use bt_server.Timer.Pointers.Position.{body_at-live}
use bt_server.Timer.Pointers.Sequence.{reset, length-without, length-insert_sorted}
use bt_server.Timer.Pointers.Blocks.{found_live}
use bt_server.Timer.Pointers.Client.{
  run, Stands, gone, add_step, del_step, del_missing, update_missing, update_step, Steps,
}

-- No call is made with the address of the head.
abbrev OffHead : ℕ → List Op → Type 0
OffHead head [] = Unit
OffHead head (add address func arg interval type ∷ ops) = (address ≢ head) × OffHead head ops
OffHead head (del p ∷ ops) = (p ≢ head) × OffHead head ops
OffHead head (update p ∷ ops) = (p ≢ head) × OffHead head ops
OffHead head (look p ∷ ops) = (p ≢ head) × OffHead head ops

lift-mapped :
    {A B : Type 0} (k : A → B) (o : Option A) → (lift o >>= λ a. ret (k a)) ≡ lift (mapped k o)
lift-mapped k none = refl
lift-mapped k (some a) = refl

body_at-dead : (p : ℕ) (m : Memory) → m.links.live p ≡ false → body_at p m ≡ none
unfolding body_at
body_at-dead p m h = rw h refl

-- What is read at an address
look_lem :
    (p : ℕ) (list : List Timer) (m : Memory) (o : Option Timer)
    → Stands m list
    → p ≢ m.head
    → find p list ≡ o
    → body_at p m ≡ o
look_lem p list m none s n e = body_at-dead p m (gone p list m s n e)
look_lem p list m (some t) s n e =
    let (l, off, b) = found_live p list m s.shows e in
    let at = find-address p list e in
    ap (λ q. body_at q m) (sym at) ∙ body_at-live t.address m l ∙ ap some b

module _ (g : ℕ) where
  run_add :
      (address func arg interval type : ℕ) (ops : List Op) (m m' : Memory)
      → bt_timer_add g (some address) func arg interval type m ≡ ret m'
      → run g (add address func arg interval type ∷ ops) m
        ≡ (run g ops m' >>= λ xs. ret (added (m'.body address) ∷ xs))
  unfolding run
  run_add address func arg interval type ops m m' h = rw h refl

  run_del :
      (p : ℕ) (ops : List Op) (m : Memory)
      → run g (del p ∷ ops) m ≡ (bt_timer_del p m >>= λ m'. run g ops m')
  unfolding run
  run_del p ops m = refl

  run_update :
      (p : ℕ) (ops : List Op) (m : Memory)
      → run g (update p ∷ ops) m ≡ (bt_timer_update g p m >>= λ m'. run g ops m')
  unfolding run
  run_update p ops m = refl

  run_look :
      (p : ℕ) (ops : List Op) (m : Memory) (o : Option Timer)
      → body_at p m ≡ o
      → run g (look p ∷ ops) m ≡ (run g ops m >>= λ xs. ret (seen o ∷ xs))
  unfolding run
  run_look p ops m o h = rw h refl

fresh_body :
    (t : Timer) (list : List Timer) (m : Memory)
    → Stands m (insert_sorted t list)
    → Absent t.address list
    → m.body t.address ≡ t
fresh_body t list m s a =
    let here : find t.address (insert_sorted t list) ≡ some t =
      find-insert_sorted t list t.address a ∙ rw (==-refl t.address) refl in
    (found_live t.address (insert_sorted t list) m s.shows here).2

missing_del :
    (table : Table) (p : ℕ) (ops : List Op)
    → table.timers p ≡ none
    → (answers table (del p ∷ ops) ≡ none) × (answers table (update p ∷ ops) ≡ none)
unfolding answers
missing_del table p ops h = (rw (h, answers) refl, rw (h, answers) refl)

module _ (g p : ℕ) (ops : List Op) (m : Memory) (s : TimerList) (table : Table) where
  deleted :
      (o : Option Timer)
      → find p s.list ≡ o
      → Stands m s.list
      → Represents s table
      → p ≢ m.head
      → ((m' : Memory) (t : Timer)
          → find p s.list ≡ some t
          → m'.head ≡ m.head
          → m'.num ≡ m.num
          → Stands m' (without p s.list)
          → run g ops m' ≡ lift (answers (set p none table) ops))
      → run g (del p ∷ ops) m ≡ lift (answers table (del p ∷ ops))
  deleted none e st r off k =
      run_del g p ops m
      ∙ rw (del_missing p s.list m st off e, (missing_del table p ops (sym (r.timers p) ∙ e)).0)
          refl
  deleted (some t) e st r off k =
      let (m', eq, hd, nm, st') = del_step p s.list m st e in
      run_del g p ops m
      ∙ rw (eq, answers-del table p ops (sym (r.timers p) ∙ e)) (k m' t e hd nm st')

  updated :
      (o : Option Timer)
      → length s.list < g
      → find p s.list ≡ o
      → Stands m s.list
      → Represents s table
      → p ≢ m.head
      → ((m' : Memory) (t : Timer)
          → find p s.list ≡ some t
          → m'.head ≡ m.head
          → m'.num ≡ m.num
          → Stands m' (insert_sorted (reset t) (without p s.list))
          → run g ops m' ≡ lift (answers (set p (restarted (table.timers p)) table) ops))
      → run g (update p ∷ ops) m ≡ lift (answers table (update p ∷ ops))
  updated none h e st r off k =
      run_update g p ops m
      ∙ rw
          (update_missing g p s.list m st off e, (missing_del table p ops (sym (r.timers p) ∙ e)).1)
          refl
  updated (some t) h e st r off k =
      let (m', eq, hd, nm, st') = update_step g p s.list m h st e in
      run_update g p ops m
      ∙ rw (eq, answers-update table p ops (sym (r.timers p) ∙ e)) (k m' t e hd nm st')

-- The pointers of a ring in order that is all there is in memory, beside its head: every sequence of
-- calls of bt_timer_add, at addresses that no timer has at the time, bt_timer_del and
-- bt_timer_update, and of looks at single timers, none of them at the address of the head, gives the
-- answers of a table of timers by address that knows no order and no pointers, and is undefined just
-- where that says so: where a timer that is not there is deleted or updated. Fuel above the number of
-- timers that there can be is enough for each get_position.
pub memory_run-answers :
    (g : ℕ) (ops : List Op) (m : Memory) (s : TimerList) (table : Table)
    → length s.list + length ops < g
    → Stands m s.list
    → m.num ≡ s.num
    → Represents s table
    → Fresh table ops
    → OffHead m.head ops
    → run g ops m ≡ lift (answers table ops)
unfolding run answers
memory_run-answers g [] m s table h st n r f off = refl
memory_run-answers g (add address func arg interval type ∷ ops) m s table h st n r f (off, offs) =
    let absent = Absent-find address s.list (r.timers address ∙ f.0) in
    let t = fresh_timer address s.num func arg interval type in
    let (m', e, hd, nm, st') =
      subst
        (λ k.
          Steps (bt_timer_add g (some address) func arg interval type m) m.head (m.num + 1)
            (insert_sorted (fresh_timer address k func arg interval type) s.list))
        n (add_step g address func arg interval type s.list m (omega arith) st off absent) in
    let grows = length-insert_sorted t s.list in
    let rest =
      memory_run-answers g ops m' (with_timer s t) _ (omega arith) st'
        (nm ∙ ap (λ (k : ℕ). k + 1) n)
        (add-Represents s table address func arg interval type r absent) f.1
        (subst (λ q. OffHead q ops) (sym hd) offs) in
    run_add g address func arg interval type ops m m' e
    ∙ rw (rest, fresh_body t s.list m' st' absent, r.num) (lift-mapped _ _)
memory_run-answers g (del p ∷ ops) m s table h st n r f (off, offs) =
    deleted g p ops m s table (find p s.list) refl st r off (λ m' t e hd nm st'.
      let short = length-without p s.list e in
      memory_run-answers g ops m'
        (record s { list = without p s.list; blocks = free_block p s.blocks }) (set p none table)
        (omega arith) st' (nm ∙ n) (del-Represents s table p r) f
        (subst (λ q. OffHead q ops) (sym hd) offs))
memory_run-answers g (update p ∷ ops) m s table h st n r f (off, offs) =
    updated g p ops m s table (find p s.list) (omega arith) refl st r off (λ m' t e hd nm st'.
      let short = length-without p s.list e in
      let grows = length-insert_sorted (reset t) (without p s.list) in
      let present : table.timers p ≡ some t = sym (r.timers p) ∙ e in
      memory_run-answers g ops m' (record s { list = insert_sorted (reset t) (without p s.list) })
        (set p (restarted (table.timers p)) table) (omega arith) st' (nm ∙ n)
        (subst
          (λ o.
            Represents (record s { list = insert_sorted (reset t) (without p s.list) })
              (set p (restarted o) table))
          (sym present) (update-Represents s table p t r e))
        f (subst (λ q. OffHead q ops) (sym hd) offs))
memory_run-answers g (look p ∷ ops) m s table h st n r f (off, offs) =
    run_look g p ops m (table.timers p) (look_lem p s.list m (table.timers p) st off (r.timers p))
    ∙ rw (memory_run-answers g ops m s table (omega arith) st n r f offs) (lift-mapped _ _)
