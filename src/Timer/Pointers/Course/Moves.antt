-- ===== src/Timer/Pointers/Course/Moves.antt =====
-- One call of src/bt_timer.c, or one run of its handler, on the sequence and in memory.
use mathlib.Core.Path.{subst}
use bt_server.Common.{
  ℕ, ◌+◌, ◌<◌, ◌≡◌, ◌≢◌, refl, sym, ◌∙◌, ap, inl, inr, Option, none, some, List, ◌==◌, ==_iff,
  ==-refl, ne→==, Bool-cases, length, arith,
}
use bt_server.Links.{poison1}
use bt_server.Timer.{Timer, TimerList, Call, Pass, done, spin, find, list_del, free_block}
use bt_server.Timer
use bt_server.Timer.Order.{Absent, insert_sorted}
use bt_server.Timer.Operations.{
  without, fresh_timer, list_del_found, bt_timer_add-del, bt_timer_update_lem, bt_timer_del_eq,
}
use bt_server.Timer.Blocks.{Fresh-ne, All-mapped, free_block-Held}
use bt_server.Timer.Reach.{IsSound, Step, Step-IsSound, queue, del_failed, update_failed}
use bt_server.Timer.Reach
use bt_server.Timer.Pointers.{Memory, Run}
use bt_server.Timer.Pointers.Shape.{Shows, Poisoned}
use bt_server.Timer.Pointers.Sequence.{reset, length-without, length-insert_sorted}
use bt_server.Timer.Pointers.Calls.{add-Shown, del-Shown, update-Shown}
use bt_server.Timer.Pointers.Refine.{Same, ended, ran_on, bt_timer_func-Same}
use bt_server.Timer.Pointers.Course.Outside.{del_outside, update_outside}
use bt_server.Timer.Pointers.Course.{
  Event, adding, deleting, updating, alarm, perform, perform_at, Matches, Agree, both_end,
  both_run_on, both_broken, Allowed,
}
use bt_server.Timer.Pointers.Course.Performed.{
  free_block-before, free_block-other, agree, adding_eq, adding_at, deleting_eq, deleting_at,
  list_del-none, updating_eq, updating_at, alarm_done, alarm_spins, alarm_at,
}

adding-Agree :
    (head f g address func arg interval type : ℕ) (s : TimerList) (m : Memory)
    → Matches head s m
    → Allowed head (adding address func arg interval type) s
    → length s.list < g
    → Agree head
        (length s.list + 1)
        (perform f (adding address func arg interval type) s)
        (perform_at f g (adding address func arg interval type) m)
adding-Agree head f g address func arg interval type s m h (fresh, real) l =
    let v = h.sound in
    let absent : Absent address s.list =
      All-mapped s.list (λ u k. Fresh-ne address s.blocks u.address fresh k) v.ring.nodes in
    let off : address ≢ m.head =
      λ z. Fresh-ne address s.blocks m.head fresh (h.held m.head h.shows.ring.live.0) (sym z) in
    let t = fresh_timer address s.num func arg interval type in
    let (m', e, hd, nm, live, r, cut) =
      add-Shown g address func arg interval type s.list m l h.shows off absent in
    let added = (bt_timer_add-del s address func arg interval type (queue v) absent).0 in
    let grows = length-insert_sorted t s.list in
    agree (adding_eq f address func arg interval type s added)
      (adding_at f g address func arg interval type m e)
      (both_end
        (record {
          place = hd ∙ h.place;
          sound = Step-IsSound (Reach.add address func arg interval type fresh added) v;
          shows =
              subst
                (λ k.
                  Shows m' (insert_sorted (fresh_timer address k func arg interval type) s.list))
                h.num r;
          num = nm ∙ ap (λ (k : ℕ). k + 1) h.num;
          held = λ p k. elim (Bool-cases (address == p)) [
            | inl z ↦ inl ((==_iff address p).0 z)
            | inr z ↦ inr (h.held p (rw z at (sym (ap (λ i. i p) live) ∙ k)))
          ];
          live = λ p k. ap (λ i. i p) live ∙ elim (Bool-cases (address == p)) [
            | inl z ↦ rw z refl
            | inr z ↦ rw z (elim k [ inl y ↦ absurd (cc (z, ==-refl p, y)) | inr y ↦ h.live p y ])
          ];
          cut =
              subst
                (λ k.
                  Poisoned m' (insert_sorted (fresh_timer address k func arg interval type) s.list))
                h.num (cut h.cut);
          bare = ap (λ i. i poison1) live ∙ rw (ne→== address poison1 real) h.bare;
        })
        (omega arith))

deleting-Agree :
    (head f g p : ℕ) (s : TimerList) (m : Memory) (o : Option Timer)
    → Matches head s m
    → p ≢ head
    → find p s.list ≡ o
    → Agree head (length s.list + 1) (perform f (deleting p) s) (perform_at f g (deleting p) m)
deleting-Agree head f g p s m none h off e =
    agree (deleting_eq f p s (del_failed p s (list_del-none p s.list e)))
      (deleting_at f g p m (del_outside p s.list m h.cut h.bare (λ z. off (z ∙ h.place)) e))
      both_broken
deleting-Agree head f g p s m (some t) h off e =
    let (m', run, hd, nm, live, r, cut) = del-Shown p s.list m h.shows e in
    let gone = bt_timer_del_eq p s (list_del_found p s.list e) in
    let short = length-without p s.list e in
    agree (deleting_eq f p s gone) (deleting_at f g p m run) (
      both_end
        (record {
          place = hd ∙ h.place;
          sound = Step-IsSound (Reach.del p gone) h.sound;
          shows = r;
          num = nm ∙ h.num;
          held = λ q k. elim (Bool-cases (p == q)) [
            | inl z ↦ absurd (cc (rw z at (sym (ap (λ i. i q) live) ∙ k)))
            | inr z ↦
                free_block-Held p s.blocks q (λ y. cc (z, y, ==-refl p))
                  (h.held q (rw z at (sym (ap (λ i. i q) live) ∙ k)))
          ];
          live = λ q k.
              ap (λ i. i q) live
              ∙ rw (ne→== p q (free_block-other p s.blocks q h.sound.blocks k))
                  (h.live q (free_block-before p s.blocks q k));
          cut = cut h.cut;
          bare =
              ap (λ i. i poison1) live
              ∙ elim (Bool-cases (p == poison1)) [ inl z ↦ rw z refl | inr z ↦ rw z h.bare ];
        })
        (omega arith))

updating-Agree :
    (head f g p : ℕ) (s : TimerList) (m : Memory) (o : Option Timer)
    → Matches head s m
    → p ≢ head
    → find p s.list ≡ o
    → length s.list < g
    → Agree head (length s.list + 1) (perform f (updating p) s) (perform_at f g (updating p) m)
updating-Agree head f g p s m none h off e l =
    agree (updating_eq f p s (update_failed p s e))
      (updating_at f g p m (update_outside g p s.list m h.cut h.bare (λ z. off (z ∙ h.place)) e))
      both_broken
updating-Agree head f g p s m (some t) h off e l =
    let (m', run, hd, nm, live, r, cut) = update-Shown g p s.list m l h.shows e in
    let restarted = (bt_timer_update_lem s p (queue h.sound) e).0 in
    let short = length-without p s.list e in
    let grows = length-insert_sorted (reset t) (without p s.list) in
    agree (updating_eq f p s restarted) (updating_at f g p m run) (
      both_end
        (record {
          place = hd ∙ h.place;
          sound = Step-IsSound (Reach.update p restarted) h.sound;
          shows = r;
          num = nm ∙ h.num;
          held = λ q k. h.held q (sym (ap (λ i. i q) live) ∙ k);
          live = λ q k. ap (λ i. i q) live ∙ h.live q k;
          cut = cut h.cut;
          bare = ap (λ i. i poison1) live ∙ h.bare;
        })
        (omega arith))

Same-Agree :
    (head f : ℕ) (s : TimerList) (m : Memory) {p : Pass} {r : Run (Memory × List Call)}
    → Matches head s m
    → Timer.bt_timer_func f s.list ≡ p
    → Same m s.list r p
    → Agree head (length s.list + 1) (perform f alarm s) r
Same-Agree head f s m h e (ended r l hd nm z cut) = agree (alarm_done f s e) refl (
    both_end
      (record {
        place = hd ∙ h.place;
        sound = Step-IsSound (Reach.tick f e) h.sound;
        shows = r;
        num = nm ∙ h.num;
        held = λ q k. h.held q (sym (ap (λ i. i q) l) ∙ k);
        live = λ q k. ap (λ i. i q) l ∙ h.live q k;
        cut = cut h.cut;
        bare = ap (λ i. i poison1) l ∙ h.bare;
      })
      (omega arith))
Same-Agree head f s m h e ran_on = agree (alarm_spins f s e) refl both_run_on

-- An event in memory does what it does on the sequence, where that is defined.
pub perform-Agree :
    (head f g : ℕ) (e : Event) (s : TimerList) (m : Memory)
    → Matches head s m
    → Allowed head e s
    → length s.list < g
    → Agree head (length s.list + 1) (perform f e s) (perform_at f g e m)
perform-Agree head f g (adding address func arg interval type) s m h fresh l =
    adding-Agree head f g address func arg interval type s m h fresh l
perform-Agree head f g (deleting p) s m h a l =
    deleting-Agree head f g p s m (find p s.list) h a refl
perform-Agree head f g (updating p) s m h a l =
    updating-Agree head f g p s m (find p s.list) h a refl l
perform-Agree head f g alarm s m h a l =
    agree refl (alarm_at f g m)
      (Same-Agree head f s m h refl (bt_timer_func-Same f g s.list m l h.shows))
