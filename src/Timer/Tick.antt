-- ===== src/Timer/Tick.antt =====
-- The SIGALRM handler of src/bt_timer.c on a ring whose intervals all differ.
use bt_server.Common.{
  ℕ, zero, suc, ◌+◌, ◌%◌, ◌^◌, ◌≤◌, ◌<◌, ◌≡◌, refl, ◌∙◌, ap, inl, inr, Bool, true, false, not,
  Option, none, some, List, [], ◌∷◌, ◌++◌, append_assoc, append-nil, arith, ltb, leb, ==-refl,
  ne→==, ◌==◌, if◌then◌else◌, Bool-cases, length, All, All-append,
}
use bt_server.Timer.{
  Timer, Call, done, bt_timer_single, get_position, insert_before, add_last, list_add_tail,
  list_del, enqueue, find, replace, first_entry, next_entry, call_of, expire, logged, next_of,
  visit, bt_timer_func,
}
use bt_server.Timer.Order.{Absent}

-- One second of a timer, by itself: what is left of it in the ring, and the calls it makes.
abbrev pub aged : Timer → Timer
aged t = record t { elapse = (t.elapse + 1) % 2 ^ 32 }

abbrev pub due : Timer → Bool
due t = leb t.interval ((t.elapse + 1) % 2 ^ 32)

abbrev pub second : Timer → List Timer
second t =
    if due t
    then (if not (t.type == bt_timer_single) then record t { elapse = 0 } ∷ [] else [])
    else aged t ∷ []

abbrev pub calls : Timer → List Call
calls t = if due t then call_of t ∷ [] else []

abbrev pub seconds : List Timer → List Timer
seconds [] = []
seconds (t ∷ rest) = second t ++ seconds rest

abbrev pub all_calls : List Timer → List Call
all_calls [] = []
all_calls (t ∷ rest) = calls t ++ all_calls rest

-- `u` is another node than those of `pre`, with a larger interval.
abbrev pub After : List Timer → Timer → Type 0
After pre u = Absent u.address pre × All (λ v. v.interval < u.interval) pre

-- The nodes are distinct and the intervals grow from each to the next.
abbrev pub Rising : List Timer → Type 0
Rising [] = Unit
Rising (t ∷ rest) = All (After (t ∷ [])) rest × Rising rest

module _ (t : Timer) (rest : List Timer) where
  pub find_here :
      (pre : List Timer) → Absent t.address pre → find t.address (pre ++ t ∷ rest) ≡ some t
  unfolding find
  find_here [] a = rw (==-refl t.address)
  find_here (v ∷ pre) (ne, a) = rw (ne→== _ _ ne, find_here pre a)

  pub list_del_here :
      (pre : List Timer)
      → Absent t.address pre
      → list_del t.address (pre ++ t ∷ rest) ≡ some (pre ++ rest)
  unfolding list_del
  list_del_here [] a = rw (==-refl t.address)
  list_del_here (v ∷ pre) (ne, a) = rw (ne→== _ _ ne, list_del_here pre a)

  pub replace_here :
      (e : ℕ) (pre : List Timer)
      → Absent t.address pre
      → replace (record t { elapse = e }) (pre ++ t ∷ rest) ≡ pre ++ record t { elapse = e } ∷ rest
  unfolding replace
  replace_here e [] a = rw (==-refl t.address)
  replace_here e (v ∷ pre) (ne, a) = rw (ne→== _ _ ne, replace_here e pre a)

  pub next_entry_here :
      (pre : List Timer)
      → Absent t.address pre
      → next_entry t.address (pre ++ t ∷ rest) ≡ first_entry rest
  unfolding next_entry
  next_entry_here [] a = rw (==-refl t.address)
  next_entry_here (v ∷ pre) (ne, a) = rw (ne→== _ _ ne, next_entry_here pre a)

  insert_before_here :
      (u : Timer) (pre : List Timer)
      → Absent t.address pre
      → insert_before u t.address (pre ++ t ∷ rest) ≡ pre ++ u ∷ t ∷ rest
  unfolding insert_before
  insert_before_here u [] a = rw (==-refl t.address)
  insert_before_here u (v ∷ pre) (ne, a) = rw (ne→== _ _ ne, insert_before_here u pre a)

add_last_eq : (u : Timer) (pre : List Timer) → add_last u pre ≡ pre ++ u ∷ []
unfolding add_last
add_last_eq u [] = refl
add_last_eq u (v ∷ pre) = ap (λ xs. v ∷ xs) (add_last_eq u pre)

get_position_after :
    (i : ℕ) (pre rest : List Timer)
    → All (λ v. v.interval ≤ i) pre
    → get_position i (pre ++ rest) ≡ get_position i rest
unfolding get_position
get_position_after i [] rest h = refl
get_position_after i (v ∷ pre) rest (le, h) =
    let f : ltb i v.interval ≡ false = ground arith in rw (f, get_position_after i pre rest h)

-- Between smaller and larger intervals a timer goes back where it was.
enqueue_here :
    (u : Timer) (pre rest : List Timer)
    → All (λ v. v.interval ≤ u.interval) pre
    → All (λ v. u.interval < v.interval) rest
    → All (After pre) rest
    → enqueue u (pre ++ rest) ≡ pre ++ u ∷ rest
unfolding enqueue list_add_tail
enqueue_here u pre [] h g a =
    rw (get_position_after u.interval pre [] h, get_position, append-nil) (add_last_eq u pre)
enqueue_here u pre (r ∷ rest) h (lt, g) (a, more) =
    let f : ltb u.interval r.interval ≡ true = ground arith in
    rw (get_position_after u.interval pre (r ∷ rest) h, get_position, f)
      (insert_before_here r rest u pre a.0)

All-lt_le :
    (i : ℕ) (pre : List Timer) → All (λ v. v.interval < i) pre → All (λ v. v.interval ≤ i) pre
All-lt_le i [] h = tt
All-lt_le i (v ∷ pre) (p, h) = (omega arith, All-lt_le i pre h)

larger :
    (t : Timer) (rest : List Timer)
    → All (After (t ∷ [])) rest
    → All (λ v. t.interval < v.interval) rest
larger t [] h = tt
larger t (v ∷ rest) (p, h) = (p.1.0, larger t rest h)

-- Where a repeating timer goes back, and where one that stays is aged, its neighbours are the same.
expire_here :
    (t : Timer) (pre rest : List Timer)
    → After pre t
    → All (After (t ∷ [])) rest
    → All (After pre) rest
    → expire t (pre ++ t ∷ rest)
      ≡ (pre ++ (second t ++ rest), if due t then some (call_of t) else none)
unfolding expire
expire_here t pre rest a b c = elim (Bool-cases (due t)) [
  | inl e ↦
      rw (e, list_del_here t rest pre a.0)
        (elim (Bool-cases (not (t.type == bt_timer_single))) [
          | inl r ↦ rw r (
              rw (
                enqueue_here (record t { elapse = 0 }) pre rest (All-lt_le t.interval pre a.1)
                  (larger t rest b) c))
          | inr r ↦ rw r
        ])
  | inr e ↦ rw (e, replace_here t rest ((t.elapse + 1) % 2 ^ 32) pre a.0)
]

All-After-append :
    (xs ys rest : List Timer)
    → All (After xs) rest
    → All (After ys) rest
    → All (After (xs ++ ys)) rest
All-After-append xs ys [] a b = tt
All-After-append xs ys (u ∷ rest) (a, as') (b, bs) =
    ((All-append _ xs ys a.0 b.0, All-append _ xs ys a.1 b.1), All-After-append xs ys rest as' bs)

second-After :
    (t : Timer) (rest : List Timer) → All (After (t ∷ [])) rest → All (After (second t)) rest
second-After t [] h = tt
second-After t (u ∷ rest) (a, h) = ((ground arith, ground arith), second-After t rest h)

pub visit_step :
    (f : ℕ) (p : ℕ) (n : Option ℕ) (list : List Timer) {t : Timer} {list' : List Timer}
    {c : Option Call}
    → find p list ≡ some t
    → expire t list ≡ (list', c)
    → visit (suc f) (some p) n list ≡ logged c (visit f n (next_of n list') list')
unfolding visit
visit_step f p n list h e = rw (h, e)

logged-calls :
    (t : Timer) (list : List Timer) (cs : List Call)
    → logged (if due t then some (call_of t) else none) (done list cs) ≡ done list (calls t ++ cs)
logged-calls t list cs = elim (Bool-cases (due t)) [ inl e ↦ rw e | inr e ↦ rw e ]

pub visit_done :
    (f : ℕ) (n : Option ℕ) (list : List Timer) → visit (suc f) none n list ≡ done list []
unfolding visit
visit_done f n list = refl

-- From any entry on, the handler visits each entry behind it once.
visit-seconds :
    (rest : List Timer) (f : ℕ) (pre : List Timer)
    → length rest < f
    → Rising rest
    → All (After pre) rest
    → visit f (first_entry rest) (next_of (first_entry rest) (pre ++ rest)) (pre ++ rest)
      ≡ done (pre ++ seconds rest) (all_calls rest)
unfolding first_entry
visit-seconds rest zero pre h r a = absurd (omega arith)
visit-seconds [] (suc f) pre h r a = visit_done f none (pre ++ [])
visit-seconds (t ∷ rest) (suc f) pre h (b, r) (a, as') =
    let ih =
      visit-seconds rest f (pre ++ second t) (omega arith) r
        (All-After-append pre (second t) rest as' (second-After t rest b)) in
    visit_step f t.address _ (pre ++ t ∷ rest) (find_here t rest pre a.0)
      (expire_here t pre rest a b as')
    ∙ rw (next_entry_here t rest pre a.0, ← append_assoc pre (second t) rest, ih)
        (rw (logged-calls t _ (all_calls rest), append_assoc))

-- On a ring of distinct nodes whose intervals grow from each to the next, one run of the SIGALRM
-- handler ends (fuel above the number of timers is enough) and visits every timer exactly once: one
-- that is not due is a second older, a repeating one that is due is called and starts again from
-- 0, a single one that is due is called and leaves the ring; the order stays, and the calls are
-- made in that order.
pub bt_timer_func-seconds :
    (f : ℕ) (list : List Timer)
    → length list < f
    → Rising list
    → bt_timer_func f list ≡ done (seconds list) (all_calls list)
unfolding bt_timer_func
bt_timer_func-seconds f list h r = visit-seconds list f [] h r (first list)
  where
    first : (xs : List Timer) → All (After []) xs
    first [] = tt
    first (x ∷ xs) = ((tt, tt), first xs)
