-- ===== src/Timer/Table/Refine.antt =====
-- No client of src/bt_timer.c tells its ring from a table of timers.
use mathlib.Core.Path.{subst}
use bt_server.Common.{
  ℕ, ◌+◌, ◌≡◌, refl, sym, ap, ◌∙◌, inl, inr, Option, none, some, List, [], ◌∷◌, ◌==◌, if◌then◌else◌,
  Bool-cases,
}
use bt_server.Timer.{Timer, TimerList, find, free_block}
use bt_server.Timer.Order.{insert_sorted, Absent}
use bt_server.Timer.Operations.{
  IsQueue, without, fresh_timer, with_timer, without-Absent, without-Distinct, without-Sorted,
  find-address, list_del_found, bt_timer_add-del, bt_timer_update_lem, bt_timer_del_eq,
}
use bt_server.Timer.Reach.{update_failed, del_failed}
use bt_server.Timer.Table.Find.{Absent-find, find-insert_sorted, find-without, list_del-missing}
use bt_server.Timer.Table.{Op, add, del, update, look, run, Table, set, restarted, answers, Fresh}

-- The table has the timers of the ring and its next id.
pub record Represents (s : TimerList) (table : Table) : Type 0 where
  pub queue : IsQueue s
  pub num : s.num ≡ table.num
  pub timers : (q : ℕ) → find q s.list ≡ table.timers q

pub add-Represents :
    (s : TimerList) (table : Table) (address func arg interval type : ℕ)
    → Represents s table
    → Absent address s.list
    → Represents
        (with_timer s (fresh_timer address s.num func arg interval type))
        (record (set address (some (fresh_timer address table.num func arg interval type)) table) {
          num = table.num + 1;
        })
add-Represents s table address func arg interval type r a =
    let t = fresh_timer address s.num func arg interval type in
    record {
      queue = (bt_timer_add-del s address func arg interval type r.queue a).1;
      num = ap (λ (n : ℕ). n + 1) r.num;
      timers = λ q. rw (find-insert_sorted t s.list q a, r.timers q, r.num) refl;
    }

pub del-Represents :
    (s : TimerList) (table : Table) (p : ℕ)
    → Represents s table
    → Represents
        (record s { list = without p s.list; blocks = free_block p s.blocks })
        (set p none table)
del-Represents s table p r = record {
  queue = record {
    sorted = without-Sorted p s.list r.queue.sorted;
    distinct = without-Distinct p s.list r.queue.distinct;
  };
  num = r.num;
  timers = λ q. rw (find-without p s.list q r.queue.distinct, r.timers q) refl;
}

put_back :
    (p a q : ℕ) (x : Option Timer) {u v w : Option Timer}
    → a ≡ p
    → u ≡ (if p == q then none else v)
    → v ≡ w
    → (if a == q then x else u) ≡ (if p == q then x else w)
put_back p a q x h u v = elim (Bool-cases (p == q)) [
  | inl z ↦ rw (h, z) refl
  | inr z ↦ rw (h, z) (rw z at u ∙ v)
]

pub update-Represents :
    (s : TimerList) (table : Table) (p : ℕ) (t : Timer)
    → Represents s table
    → find p s.list ≡ some t
    → Represents
        (record s { list = insert_sorted (record t { elapse = 0 }) (without p s.list) })
        (set p (some (record t { elapse = 0 })) table)
update-Represents s table p t r h =
    let fresh : Timer = record t { elapse = 0 } in
    let at : t.address ≡ p = find-address p s.list h in
    let gone : Absent t.address (without p s.list) =
      subst (λ x. Absent x (without p s.list)) (sym at)
        (without-Absent p s.list r.queue.distinct) in
    record {
      queue = (bt_timer_update_lem s p r.queue h).1;
      num = r.num;
      timers = λ q.
          find-insert_sorted fresh (without p s.list) q gone
          ∙ put_back p t.address q (some fresh) at (find-without p s.list q r.queue.distinct)
              (r.timers q);
    }

pub answers-del :
    (table : Table) (p : ℕ) (ops : List Op) {t : Timer}
    → table.timers p ≡ some t
    → answers table (del p ∷ ops) ≡ answers (set p none table) ops
unfolding answers
answers-del table p ops h = rw (h, answers) refl

pub answers-update :
    (table : Table) (p : ℕ) (ops : List Op) {t : Timer}
    → table.timers p ≡ some t
    → answers table (update p ∷ ops) ≡ answers (set p (restarted (table.timers p)) table) ops
unfolding answers
answers-update table p ops h = rw (h, answers, h) refl

deleted :
    (s : TimerList) (table : Table) (p : ℕ) (ops : List Op) (o : Option Timer)
    → find p s.list ≡ o
    → Represents s table
    → run (record s { list = without p s.list; blocks = free_block p s.blocks }) ops
      ≡ answers (set p none table) ops
    → run s (del p ∷ ops) ≡ answers table (del p ∷ ops)
unfolding run answers
deleted s table p ops none h r e =
    let absent : table.timers p ≡ none = sym (r.timers p) ∙ h in
    rw (del_failed p s (list_del-missing p s.list h), absent, answers) refl
deleted s table p ops (some t) h r e =
    let present : table.timers p ≡ some t = sym (r.timers p) ∙ h in
    rw (bt_timer_del_eq p s (list_del_found p s.list h)) (e ∙ sym (answers-del table p ops present))

update_eq :
    (s : TimerList) (table : Table) (p : ℕ) (ops : List Op) (o : Option Timer)
    → find p s.list ≡ o
    → Represents s table
    → ((s' : TimerList)
        → Represents s' (set p (restarted (table.timers p)) table)
        → run s' ops ≡ answers (set p (restarted (table.timers p)) table) ops)
    → run s (update p ∷ ops) ≡ answers table (update p ∷ ops)
unfolding run answers
update_eq s table p ops none h r k =
    let absent : table.timers p ≡ none = sym (r.timers p) ∙ h in
    rw (update_failed p s h, absent, answers) refl
update_eq s table p ops (some t) h r k =
    let present : table.timers p ≡ some t = sym (r.timers p) ∙ h in
    rw ((bt_timer_update_lem s p r.queue h).0) (
      k _ (
        subst
          (λ o.
            Represents
              (record s { list = insert_sorted (record t { elapse = 0 }) (without p s.list) })
              (set p (restarted o) table))
          (sym present) (update-Represents s table p t r h))
      ∙ sym (answers-update table p ops present))

-- From a ring in order without repeats, every sequence of calls of bt_timer_add, with addresses that
-- no timer has at the time, bt_timer_del and bt_timer_update, and of looks at single timers, gives
-- the answers of a table of timers by address, where adding sets an entry with the next id, deleting
-- clears one and updating resets the elapsed time; it runs into undefined behaviour just where an
-- entry that is not there is deleted or updated. The order of the ring shows nowhere.
run-answers :
    (ops : List Op) (s : TimerList) (table : Table)
    → Represents s table
    → Fresh table ops
    → run s ops ≡ answers table ops
unfolding run answers
run-answers [] s table r f = refl
run-answers (add address func arg interval type ∷ ops) s table r f =
    let absent = Absent-find address s.list (r.timers address ∙ f.0) in
    rw
      (
        (bt_timer_add-del s address func arg interval type r.queue absent).0,
        run-answers ops _ _ (add-Represents s table address func arg interval type r absent) f.1,
        r.num,
      )
      refl
run-answers (del p ∷ ops) s table r f =
    deleted s table p ops (find p s.list) refl r
      (run-answers ops _ _ (del-Represents s table p r) f)
run-answers (update p ∷ ops) s table r f =
    update_eq s table p ops (find p s.list) refl r (λ s' r'. run-answers ops s' _ r' f)
run-answers (look p ∷ ops) s table r f = rw (run-answers ops s table r f, r.timers p) refl
