-- ===== src/Timer/Pointers/Refine.antt =====
-- The handler of src/bt_timer.c in memory is the one on the sequence.
use mathlib.Core.Path.{subst}
use bt_server.Common.{
  ℕ, zero, suc, ◌<◌, ◌≤◌, ◌≡◌, ◌≢◌, refl, sym, ◌∙◌, ap, false, Option, none, some, List, [], ◌∷◌,
  ◌==◌, ==-refl, ne→==, length, arith,
}
use bt_server.Links.{next_at}
use bt_server.Links.Effects.{next_at-live}
use bt_server.Timer.{
  Timer, Call, Pass, done, spin, bt_timer_single, find, replace, first_entry, next_entry, next_of,
  logged,
}
use bt_server.Timer
use bt_server.Timer.Operations.{find-address}
use bt_server.Timer.Ring.{All-find}
use bt_server.Timer.Pointers.{Memory, Run, ret, endless, ◌>>=◌, expire, noted, visit, bt_timer_func}
use bt_server.Timer.Pointers.Shape.{Shows, Poisoned, node, addresses-Distinct, All-addresses}
use bt_server.Timer.Pointers.Steps.{next_at-Shows}
use bt_server.Timer.Pointers.Expire.{expire-Round}
use bt_server.Timer.Pointers.Behind.{expire-find, Behind, next_entry-Behind}

-- The handler in memory leaves what it leaves of the sequence, with the same calls and the same
-- blocks in memory as before, or neither ends.
pub data Same (before : Memory) (from : List Timer) : Run (Memory × List Call) → Pass → Type 0 where
  ended :
      {m : Memory} {list : List Timer} {calls : List Call}
      → Shows m list
      → m.links.live ≡ before.links.live
      → m.head ≡ before.head
      → m.num ≡ before.num
      → length list ≤ length from
      → (Poisoned before from → Poisoned m list)
      → Same before from (ret (m, calls)) (done list calls)
  ran_on : Same before from endless spin

Same-noted :
    {before : Memory} {from : List Timer} (c : Option Call) {r : Run (Memory × List Call)}
    {p : Pass}
    → Same before from r p
    → Same before from (r >>= λ q. ret (q.0, noted c q.1)) (logged c p)
Same-noted none (ended r l k n z h) = ended r l k n z h
Same-noted (some c) (ended r l k n z h) = ended r l k n z h
Same-noted c ran_on = ran_on

-- The memory that the links are compared with
Same-before :
    {m m' : Memory} {from from' : List Timer} {r : Run (Memory × List Call)} {p : Pass}
    → m'.links.live ≡ m.links.live
    → m'.head ≡ m.head
    → m'.num ≡ m.num
    → length from' ≤ length from
    → (Poisoned m from → Poisoned m' from')
    → Same m' from' r p
    → Same m from r p
Same-before live hd nm less cut (ended r l k n z h) =
    ended r (l ∙ live) (k ∙ hd) (n ∙ nm) (omega arith) (λ b. h (cut b))
Same-before live hd nm less cut ran_on = ran_on

visit_end :
    (f g tmp : ℕ) (n : Option ℕ) (list : List Timer) (m : Memory)
    → Shows m list
    → Same m list (visit f g m.head tmp m) (Timer.visit f none n list)
unfolding visit Timer.visit
visit_end zero g tmp n list m r = ran_on
visit_end (suc f) g tmp n list m r =
    rw (visit, ==-refl m.head) (ended r refl refl refl (omega arith) (λ b. b))

visit_round :
    (f g p tmp next : ℕ) (c : Option Call) (m m' : Memory)
    → (p == m.head) ≡ false
    → expire g p m ≡ ret (m', c)
    → next_at tmp m'.links ≡ some next
    → visit (suc f) g p tmp m ≡ (visit f g tmp next m' >>= λ q. ret (q.0, noted c q.1))
unfolding visit
visit_round f g p tmp next c m m' h e n = rw (visit, h, e, n) refl

sequence_round :
    (f p : ℕ) (n : Option ℕ) (list : List Timer) {t : Timer}
    → find p list ≡ some t
    → Timer.visit (suc f) (some p) n list
      ≡ logged
          (Timer.expire t list).1
          (Timer.visit f n (next_of n (Timer.expire t list).0) (Timer.expire t list).0)
unfolding Timer.visit
sequence_round f p n list h = rw h refl

off_head :
    (t : Timer) (list : List Timer) (m : Memory)
    → Shows m list
    → find t.address list ≡ some t
    → t.address ≢ m.head
off_head t list m r e =
    All-find (λ u. u.address ≢ m.head) t.address list e
      (All-addresses (λ q. q ≢ m.head) list r.ring.distinct.0)

visit-Same :
    (f g : ℕ) (t : Timer) (n : Option ℕ) (list : List Timer) (m : Memory)
    → length list < g
    → Shows m list
    → find t.address list ≡ some t
    → Behind t.address n list
    → Same m list (visit f g t.address (node m.head n) m) (Timer.visit f (some t.address) n list)
unfolding visit Timer.visit
visit-Same zero g t n list m h r e b = ran_on
visit-Same (suc f) g t none list m h r e b =
    let (m', ex, hd, nm, r', live, len, cut) = expire-Round g t list m h r e in
    let off = ne→== t.address m.head (off_head t list m r e) in
    let list' = (Timer.expire t list).0 in
    let c = (Timer.expire t list).1 in
    let next = m'.links.next m'.head in
    let read =
      ap (λ q. next_at q m'.links) (sym hd) ∙ next_at-live m'.head m'.links r'.ring.live.0 in
    subst (λ x. Same m list x (Timer.visit (suc f) (some t.address) none list))
      (sym (visit_round f g t.address m.head next c m m' off ex read))
      (subst (Same m list (visit f g m.head next m' >>= λ q. ret (q.0, noted c q.1)))
        (sym (sequence_round f t.address none list e))
        (Same-noted c (
          subst (λ x. Same m list (visit f g x next m') (Timer.visit f none none list')) hd
            (Same-before live hd nm len cut (visit_end f g next none list' m' r')))))
visit-Same (suc f) g t (some q) list m h r e (ne, (u, eu)) =
    let (m', ex, hd, nm, r', live, len, cut) = expire-Round g t list m h r e in
    let off = ne→== t.address m.head (off_head t list m r e) in
    let list' = (Timer.expire t list).0 in
    let c = (Timer.expire t list).1 in
    let d = addresses-Distinct list r.ring.distinct.1 in
    let there : find q list' ≡ some u = expire-find t list q d e ne ∙ eu in
    let at : u.address ≡ q = find-address q list' there in
    let next = next_entry q list' in
    let read : next_at q m'.links ≡ some (node m'.head next) =
      ap (λ p. next_at p m'.links) (sym at) ∙ next_at-Shows q list' m' r' there in
    let d' = addresses-Distinct list' r'.ring.distinct.1 in
    let deeper =
      visit-Same f g u next list' m' (omega arith) r'
        (subst (λ p. find p list' ≡ some u) (sym at) there)
        (subst (λ p. Behind p next list') (sym at) (next_entry-Behind q list' d')) in
    subst (λ x. Same m list x (Timer.visit (suc f) (some t.address) (some q) list))
      (sym (visit_round f g t.address q (node m'.head next) c m m' off ex read))
      (subst (Same m list (visit f g q (node m'.head next) m' >>= λ z. ret (z.0, noted c z.1)))
        (sym (sequence_round f t.address (some q) list e))
        (Same-noted c (
          subst
            (λ p.
              Same m list (visit f g p (node m'.head next) m') (Timer.visit f (some p) next list'))
            at (Same-before live hd nm len cut deeper))))

pub find-first : (t : Timer) (rest : List Timer) → find t.address (t ∷ rest) ≡ some t
unfolding find
find-first t rest = rw (==-refl t.address) refl

func_eq :
    (f g vec tmp : ℕ) (m : Memory)
    → next_at m.head m.links ≡ some vec
    → next_at vec m.links ≡ some tmp
    → bt_timer_func f g m ≡ visit f g vec tmp m
unfolding bt_timer_func
func_eq f g vec tmp m h e = rw (h, e) refl

-- On the pointers of any ring, whatever the timers are, one run of the SIGALRM handler does what the
-- handler does on the sequence of its timers: both end, with the same calls, and the ring in memory
-- stands for the sequence that is left, in the same blocks and no longer than before, or neither ends
-- with the fuel `f` of the loop. If all that was in memory and out of the ring was poisoned before, it
-- is so after it. Fuel `g` above the number of timers is enough for each get_position. No pointer that
-- is followed dangles.
pub bt_timer_func-Same :
    (f g : ℕ) (list : List Timer) (m : Memory)
    → length list < g
    → Shows m list
    → Same m list (bt_timer_func f g m) (Timer.bt_timer_func f list)
unfolding Timer.bt_timer_func first_entry
bt_timer_func-Same f g [] m h r =
    let at : next_at m.head m.links ≡ some m.head =
      next_at-live m.head m.links r.ring.live.0 ∙ ap some r.ring.forth in
    subst (λ x. Same m [] x (Timer.bt_timer_func f [])) (sym (func_eq f g m.head m.head m at at))
      (visit_end f g m.head none [] m r)
bt_timer_func-Same f g (t ∷ rest) m h r =
    let here : find t.address (t ∷ rest) ≡ some t = find-first t rest in
    let at : next_at m.head m.links ≡ some t.address =
      next_at-live m.head m.links r.ring.live.0 ∙ ap some r.ring.forth.0 in
    let next = next_entry t.address (t ∷ rest) in
    let d = addresses-Distinct (t ∷ rest) r.ring.distinct.1 in
    subst (λ x. Same m (t ∷ rest) x (Timer.bt_timer_func f (t ∷ rest)))
      (sym (
        func_eq f g t.address (node m.head next) m at
          (next_at-Shows t.address (t ∷ rest) m r here)))
      (visit-Same f g t next (t ∷ rest) m h r here (next_entry-Behind t.address (t ∷ rest) d))
