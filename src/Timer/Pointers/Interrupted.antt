-- ===== src/Timer/Pointers/Interrupted.antt =====
-- SIGALRM in the middle of list_del: the handler runs between the reads and the writes of a call of
-- bt_timer_del in src/bt_timer.c.
use mathlib.Core.Path.{subst}
use bt_server.Common.{
  ℕ, ◌<◌, ◌≡◌, ◌≢◌, refl, sym, ◌∙◌, ap, true, false, none, some, List, [], ◌∷◌, ne→==, ==-refl,
  length,
}
use bt_server.Links.{Store, next_at, prev_at, write_all, del_writes}
use bt_server.Links.Ring.{first, All-first}
use bt_server.Links.Leads.{leads_at}
use bt_server.Links.Effects.{next_at-live, prev_at-live, removed, write_removed}
use bt_server.Timer.{Timer, Call, Pass, done}
use bt_server.Timer
use bt_server.Timer.Pointers.{
  Memory, Run, ret, undefined, ◌>>=◌, lift, with_links, released, bt_timer_func,
}
use bt_server.Timer.Pointers.Shape.{addresses, Shows}
use bt_server.Timer.Pointers.Refine.{Same, ended, bt_timer_func-Same}

-- bt_timer_del of `ptr`, interrupted by SIGALRM when list_del has read the two links and not yet
-- written any.
unfoldable pub interrupted_del : ℕ → ℕ → ℕ → Memory → Run Memory
unfolding prev_at next_at write_all bt_timer_func
interrupted_del f g ptr m = do
  prev ← lift (prev_at ptr m.links)
  next ← lift (next_at ptr m.links)
  r ← bt_timer_func f g m
  s ← lift (write_all (del_writes ptr prev next) r.0.links)
  ret (released ptr (with_links r.0 s))

interrupted_eq :
    (f g ptr prev next : ℕ) (m m₁ : Memory) (calls : List Call) (s : Store)
    → prev_at ptr m.links ≡ some prev
    → next_at ptr m.links ≡ some next
    → bt_timer_func f g m ≡ ret (m₁, calls)
    → write_all (del_writes ptr prev next) m₁.links ≡ some s
    → interrupted_del f g ptr m ≡ ret (released ptr (with_links m₁ s))
unfolding interrupted_del
interrupted_eq f g ptr prev next m m₁ calls s hp hn hf hw = rw (hp, hn, hf, hw) refl

Ended : Memory → Run (Memory × List Call) → List Timer → List Call → Type 0
Ended m r list calls =
    (m₁ : Memory) × (r ≡ ret (m₁, calls))
    × Shows m₁ list
    × (m₁.links.live ≡ m.links.live)
    × (m₁.head ≡ m.head)

Same-done :
    {m : Memory} {from : List Timer} {r : Run (Memory × List Call)} {list : List Timer}
    {calls : List Call}
    → Same m from r (done list calls)
    → Ended m r list calls
unfolding Ended
Same-done (ended r l h n z cut) = (_, refl, r, l, h)

dangling :
    (f g x : ℕ) (m : Memory)
    → next_at m.head m.links ≡ some x
    → next_at x m.links ≡ none
    → bt_timer_func f g m ≡ undefined
unfolding bt_timer_func
dangling f g x m h e = rw (h, e) refl

dead : (p : ℕ) (s : Store) → s.live p ≡ false → next_at p s ≡ none
unfolding next_at
dead p s h = rw h refl

-- SIGALRM interrupts bt_timer_del of the second timer of a ring in memory, when list_del has read its
-- links, and the handler, which ends, takes the first timer away, so that the second is now the first:
-- the writes of list_del go to the timer that is gone, the head still leads to the block that is freed,
-- and every later run of the handler, with any fuel, is undefined. Fuel `g` above the number of timers
-- is enough for each get_position.
pub interrupted_del_undefined :
    (f g : ℕ) (a x : Timer) (rest : List Timer) (m : Memory) {x' : Timer} {rest' : List Timer}
    {calls : List Call}
    → length (a ∷ x ∷ rest) < g
    → Shows m (a ∷ x ∷ rest)
    → Timer.bt_timer_func f (a ∷ x ∷ rest) ≡ done (x' ∷ rest') calls
    → x'.address ≡ x.address
    → (m' : Memory) × (interrupted_del f g x.address m ≡ ret m')
      × ((f' g' : ℕ) → bt_timer_func f' g' m' ≡ undefined)
unfolding Ended
interrupted_del_undefined f g a x rest m {x'} {rest'} {calls} h r e at =
    let b = first (addresses rest) m.head in
    let (m₁, run, r₁, live, hd) = Same-done (
      subst (Same m (a ∷ x ∷ rest) (bt_timer_func f g m)) e
        (bt_timer_func-Same f g (a ∷ x ∷ rest) m h r)) in
    let back : m.links.prev x.address ≡ a.address =
      ap m.links.prev (sym r.ring.forth.1.0) ∙ r.ring.back.1.0 in
    let ahead : m.links.next x.address ≡ b =
      leads_at m.links.next m.head x.address (a.address ∷ []) (addresses rest) m.head
        r.ring.forth in
    let la : m₁.links.live a.address ≡ true = ap (λ k. k a.address) live ∙ r.ring.live.1.0 in
    let lx : m₁.links.live x.address ≡ true = ap (λ k. k x.address) live ∙ r.ring.live.1.1.0 in
    let lb : m₁.links.live b ≡ true =
      ap (λ k. k b) live
      ∙ All-first (λ p. m.links.live p ≡ true) m.head (a.address ∷ x.address ∷ []) (addresses rest)
          m.head r.ring.live.0 r.ring.live in
    let st = removed a.address x.address b m₁.links in
    let m' = released x.address (with_links m₁ st) in
    let xh : x.address ≢ m₁.head = λ z. r.ring.distinct.0.1.0 (z ∙ hd) in
    let ah : a.address ≢ m₁.head = λ z. r.ring.distinct.0.0 (z ∙ hd) in
    let leads : m₁.links.next m₁.head ≡ x.address = r₁.ring.forth.0 ∙ at in
    let read : next_at m'.head m'.links ≡ some x.address =
      next_at-live m'.head m'.links (rw (ne→== x.address m₁.head xh) r₁.ring.live.0)
      ∙ ap some (rw (ne→== x.address m₁.head xh, ne→== a.address m₁.head ah) leads) in
    (
      m',
      interrupted_eq f g x.address a.address b m m₁ calls st
          (prev_at-live x.address m.links r.ring.live.1.1.0 ∙ ap some back)
          (next_at-live x.address m.links r.ring.live.1.1.0 ∙ ap some ahead) run
          (write_removed a.address x.address b m₁.links la lx lb),
      λ f' g'.
          dangling f' g' x.address m' read (dead x.address m'.links (rw (==-refl x.address) refl)),
    )
