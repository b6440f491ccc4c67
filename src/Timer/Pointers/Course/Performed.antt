-- ===== src/Timer/Pointers/Course/Performed.antt =====
-- The equations of each event of a course, and the blocks that are left when one is freed.
use mathlib.Core.Path.{subst}
use bt_server.Common.{
  ℕ, ◌≡◌, ◌≢◌, refl, sym, ◌∙◌, ap, inl, inr, Option, none, some, List, [], ◌∷◌, ◌==◌, ==_iff,
  ==-refl, Bool-cases,
}
use bt_server.Timer.{Timer, TimerList, Call, Pass, done, spin, find, list_del, free_block}
use bt_server.Timer
use bt_server.Timer.Blocks.{Held, NoRepeats, Fresh-ne}
use bt_server.Timer.Pointers.{
  Memory, Run, ret, endless, ◌>>=◌, lift, bt_timer_func, bt_timer_add, bt_timer_del,
  bt_timer_update,
}
use bt_server.Timer.Pointers.Course.{adding, deleting, updating, alarm, perform, perform_at, Agree}

-- Blocks that are left when one is freed
pub free_block-before : (p : ℕ) (qs : List ℕ) (q : ℕ) → Held (free_block p qs) q → Held qs q
unfolding free_block
free_block-before p [] q h = h
free_block-before p (x ∷ xs) q h = elim (Bool-cases (x == p)) [
  | inl e ↦ inr (rw e at h)
  | inr e ↦
      let there : Held (x ∷ free_block p xs) q = rw e at h in
      elim there [ inl z ↦ inl z | inr k ↦ inr (free_block-before p xs q k) ]
]

pub free_block-other :
    (p : ℕ) (qs : List ℕ) (q : ℕ) → NoRepeats qs → Held (free_block p qs) q → p ≢ q
unfolding free_block
free_block-other p [] q n h = absurd h
free_block-other p (x ∷ xs) q (f, n) h = elim (Bool-cases (x == p)) [
  | inl e ↦ let at : x ≡ p = (==_iff x p).0 e in λ z. Fresh-ne x xs q f (rw e at h) (sym (at ∙ z))
  | inr e ↦
      let there : Held (x ∷ free_block p xs) q = rw e at h in
      elim there [
        | inl z ↦ λ k. absurd (cc (e, ==-refl p, z, k))
        | inr k ↦ free_block-other p xs q n k
      ]
]

pub agree :
    {head size : ℕ} {x r : Run (TimerList × List Call)} {y q : Run (Memory × List Call)}
    → x ≡ r
    → y ≡ q
    → Agree head size r q
    → Agree head size x y
agree {head} {size} {x} {r} {y} {q} e h a =
    subst (λ z. Agree head size z y) (sym e) (subst (λ z. Agree head size r z) (sym h) a)

pub adding_eq :
    (f address func arg interval type : ℕ) (s : TimerList) {o : Option (TimerList × Timer)}
    → Timer.bt_timer_add (some address) func arg interval type s ≡ o
    → perform f (adding address func arg interval type) s ≡ (lift o >>= λ r. ret (r.0, []))
unfolding perform
adding_eq f address func arg interval type s h = ap (λ o. lift o >>= λ r. ret (r.0, [])) h

pub adding_at :
    (f g address func arg interval type : ℕ) (m : Memory) {r : Run Memory}
    → bt_timer_add g (some address) func arg interval type m ≡ r
    → perform_at f g (adding address func arg interval type) m ≡ (r >>= λ k. ret (k, []))
unfolding perform_at
adding_at f g address func arg interval type m h = ap (λ r. r >>= λ k. ret (k, [])) h

pub deleting_eq :
    (f p : ℕ) (s : TimerList) {o : Option TimerList}
    → Timer.bt_timer_del p s ≡ o
    → perform f (deleting p) s ≡ (lift o >>= λ r. ret (r, []))
unfolding perform
deleting_eq f p s h = ap (λ o. lift o >>= λ r. ret (r, [])) h

pub deleting_at :
    (f g p : ℕ) (m : Memory) {r : Run Memory}
    → bt_timer_del p m ≡ r
    → perform_at f g (deleting p) m ≡ (r >>= λ k. ret (k, []))
unfolding perform_at
deleting_at f g p m h = ap (λ r. r >>= λ k. ret (k, [])) h

pub list_del-none : (p : ℕ) (list : List Timer) → find p list ≡ none → list_del p list ≡ none
unfolding find list_del
list_del-none p [] h = refl
list_del-none p (x ∷ xs) h = elim (Bool-cases (x.address == p)) [
  | inl e ↦ absurd (cc (rw e at h))
  | inr e ↦ rw (e, list_del-none p xs (rw e at h)) refl
]

pub updating_eq :
    (f p : ℕ) (s : TimerList) {o : Option TimerList}
    → Timer.bt_timer_update p s ≡ o
    → perform f (updating p) s ≡ (lift o >>= λ r. ret (r, []))
unfolding perform
updating_eq f p s h = ap (λ o. lift o >>= λ r. ret (r, [])) h

pub updating_at :
    (f g p : ℕ) (m : Memory) {r : Run Memory}
    → bt_timer_update g p m ≡ r
    → perform_at f g (updating p) m ≡ (r >>= λ k. ret (k, []))
unfolding perform_at
updating_at f g p m h = ap (λ r. r >>= λ k. ret (k, [])) h

pub alarm_done :
    (f : ℕ) (s : TimerList) {list : List Timer} {calls : List Call}
    → Timer.bt_timer_func f s.list ≡ done list calls
    → perform f alarm s ≡ ret (record s { list = list }, calls)
unfolding perform
alarm_done f s h = rw (perform, h) refl

pub alarm_spins :
    (f : ℕ) (s : TimerList) → Timer.bt_timer_func f s.list ≡ spin → perform f alarm s ≡ endless
unfolding perform
alarm_spins f s h = rw (perform, h) refl

pub alarm_at : (f g : ℕ) (m : Memory) → perform_at f g alarm m ≡ bt_timer_func f g m
unfolding perform_at
alarm_at f g m = refl
