-- ===== src/Timer/Run.antt =====
-- Repeating timers of src/bt_timer.c over many seconds.
use bt_server.Common.{
  ℕ, zero, suc, ◌+◌, ◌/◌, ◌%◌, ◌^◌, ◌<◌, ◌≡◌, refl, sym, ◌∙◌, ap, inl, inr, Bool, true, false, List,
  [], ◌∷◌, ◌++◌, arith, leb, ◌==◌, if◌then◌else◌, Bool-cases, length, All,
}
use native.Mathlib.Nat.{mod-add-mod, mod_self, mod-lt, add-div_left}
use bt_server.Timer.{Timer, Call, Pass, done, spin, bt_timer_single, bt_timer_func, call_of}
use bt_server.Timer.Tick.{second, seconds, calls, all_calls, After, Rising, bt_timer_func-seconds}

-- The calls of a run, before those of the runs behind it.
abbrev prepended : List Call → Pass → Pass
prepended cs (done list more) = done list (cs ++ more)
prepended cs spin = spin

abbrev followed : Pass → (List Timer → Pass) → Pass
followed (done list cs) k = prepended cs (k list)
followed spin k = spin

-- `n` deliveries of SIGALRM, each with fuel `f`.
pub run : ℕ → ℕ → List Timer → Pass
run zero f list = done list []
run (suc n) f list = followed (bt_timer_func f list) (run n f)

-- A repeating timer in the course of a period.
abbrev Steady : Timer → Type 0
Steady t = ((t.type == bt_timer_single) ≡ false) × (t.elapse < t.interval) × (t.interval < 2 ^ 32)

abbrev later : ℕ → Timer → Timer
later n t = record t { elapse = (t.elapse + n) % t.interval }

abbrev pub all_later : ℕ → List Timer → List Timer
all_later n [] = []
all_later n (t ∷ rest) = later n t ∷ all_later n rest

-- How often the timers with an id fall due in `n` seconds.
abbrev pub firings : ℕ → ℕ → List Timer → ℕ
firings n id [] = 0
firings n id (t ∷ rest) =
    (if t.timer_id == id then (t.elapse + n) / t.interval else 0) + firings n id rest

abbrev pub count : ℕ → List Call → ℕ
count id [] = 0
count id (c ∷ cs) = (if c.timer_id == id then 1 else 0) + count id cs

second-later : (t : Timer) → Steady t → second t ≡ later 1 t ∷ []
second-later t (r, e, i) = elim (Bool-cases (leb t.interval (t.elapse + 1))) [
  | inl d ↦ grind arith
  | inr d ↦ grind arith
]

later-later : (e i n : ℕ) → ((e + 1) % i + n) % i ≡ (e + suc n) % i
later-later e i n = mod-add-mod (e + 1) i n ∙ ap (λ (m : ℕ). m % i) (omega arith)

firings_step :
    (e i n : ℕ) → e < i → (if leb i (e + 1) then 1 else 0) + ((e + 1) % i + n) / i ≡ (e + suc n) / i
firings_step e i n h = elim (Bool-cases (leb i (e + 1))) [
  | inl d ↦
      let eq : e + 1 ≡ i = ground arith in
      let wraps : (e + 1) % i ≡ 0 = rw eq (mod_self i) in
      let sum : e + suc n ≡ i + n = omega arith in
      let plain : 0 + n ≡ n = omega arith in
      rw (d, wraps, sum, plain, add-div_left n {k = i} (omega arith)) (omega arith)
  | inr d ↦ grind arith
]

abbrev AllSteady : List Timer → Type 0
AllSteady = All Steady

later-Steady : (n : ℕ) (t : Timer) → Steady t → Steady (later n t)
later-Steady n t (r, e, i) = (r, mod-lt (t.elapse + n) (omega arith), i)

all_later-Steady : (n : ℕ) (list : List Timer) → AllSteady list → AllSteady (all_later n list)
all_later-Steady n [] h = tt
all_later-Steady n (t ∷ rest) (p, h) = (later-Steady n t p, all_later-Steady n rest h)

all_later-After :
    (n m : ℕ) (t : Timer) (rest : List Timer)
    → All (After (t ∷ [])) rest
    → All (After (later m t ∷ [])) (all_later n rest)
all_later-After n m t [] h = tt
all_later-After n m t (u ∷ rest) (p, h) = (p, all_later-After n m t rest h)

all_later-Rising : (n : ℕ) (list : List Timer) → Rising list → Rising (all_later n list)
all_later-Rising n [] h = tt
all_later-Rising n (t ∷ rest) (p, h) = (all_later-After n n t rest p, all_later-Rising n rest h)

length-all_later : (n : ℕ) (list : List Timer) → length (all_later n list) ≡ length list
length-all_later n [] = refl
length-all_later n (t ∷ rest) = ap suc (length-all_later n rest)

seconds-all_later : (list : List Timer) → AllSteady list → seconds list ≡ all_later 1 list
seconds-all_later [] h = refl
seconds-all_later (t ∷ rest) (p, h) = rw (second-later t p, seconds-all_later rest h)

all_later-suc :
    (n : ℕ) (list : List Timer) → all_later n (all_later 1 list) ≡ all_later (suc n) list
all_later-suc n [] = refl
all_later-suc n (t ∷ rest) = rw (later-later t.elapse t.interval n, all_later-suc n rest)

all_later-zero : (list : List Timer) → AllSteady list → all_later 0 list ≡ list
all_later-zero [] h = refl
all_later-zero (t ∷ rest) (p, h) =
    let same : (t.elapse + 0) % t.interval ≡ t.elapse = grind arith in
    rw (same, all_later-zero rest h)

count-append : (id : ℕ) (xs ys : List Call) → count id (xs ++ ys) ≡ count id xs + count id ys
count-append id [] ys = omega arith
count-append id (x ∷ xs) ys = omega (arith, count-append id xs ys)

count-if :
    (id : ℕ) (t : Timer) (b : Bool)
    → count id (if b then call_of t ∷ [] else [])
      ≡ (if t.timer_id == id then (if b then 1 else 0) else 0)
count-if id t false = ground arith
count-if id t true = ground arith

count-calls :
    (id n : ℕ) (t : Timer)
    → Steady t
    → count id (calls t) + (if t.timer_id == id then ((later 1 t).elapse + n) / t.interval else 0)
      ≡ (if t.timer_id == id then (t.elapse + suc n) / t.interval else 0)
count-calls id n t (r, e, i) =
    let small : (t.elapse + 1) % 2 ^ 32 ≡ t.elapse + 1 = omega arith in
    let step = firings_step t.elapse t.interval n e in
    rw (small, count-if id t (leb t.interval (t.elapse + 1)))
      (elim (Bool-cases (t.timer_id == id)) [ inl q ↦ rw q step | inr q ↦ rw q (omega arith) ])

count-all_calls :
    (id n : ℕ) (list : List Timer)
    → AllSteady list
    → count id (all_calls list) + firings n id (all_later 1 list) ≡ firings (suc n) id list
count-all_calls id n [] h = omega arith
count-all_calls id n (t ∷ rest) (p, h) = omega (
  arith,
  count-append id (calls t) (all_calls rest),
  count-calls id n t p,
  count-all_calls id n rest h,
)

firings-zero : (id : ℕ) (list : List Timer) → AllSteady list → firings 0 id list ≡ 0
firings-zero id [] h = refl
firings-zero id (t ∷ rest) (p, h) =
    let none_yet : (t.elapse + 0) / t.interval ≡ 0 = grind arith in
    rw (none_yet, firings-zero id rest h) (ground arith)

-- The calls of a run that ended with the ring `expected`.
abbrev pub EndsWith : List Timer → (List Call → Type 0) → Pass → Type 0
EndsWith expected P (done list cs) = (list ≡ expected) × P cs
EndsWith expected P spin = ⊥

EndsWith-prepended :
    (expected : List Timer) (P Q : List Call → Type 0) (cs : List Call)
    → ((more : List Call) → P more → Q (cs ++ more))
    → (r : Pass) → EndsWith expected P r
    → EndsWith expected Q (prepended cs r)
EndsWith-prepended expected P Q cs h (done list more) (e, p) = (e, h more p)
EndsWith-prepended expected P Q cs h spin x = absurd x

-- Repeating timers whose intervals differ keep their periods. On a ring of distinct nodes with
-- growing intervals below 2^32, all repeating and within their period, `n` deliveries of SIGALRM
-- all end (with fuel above the number of timers for each); a timer with `elapse` seconds behind it
-- is then at (elapse + n) mod interval, with everything else unchanged, and was called
-- (elapse + n) div interval times: the calls with any id are as many as the timers with that id
-- add up to.
pub run_periodic :
    (n f id : ℕ) (list : List Timer)
    → length list < f
    → Rising list
    → AllSteady list
    → EndsWith (all_later n list) (λ cs. count id cs ≡ firings n id list) (run n f list)
unfolding run
run_periodic zero f id list h r s = (sym (all_later-zero list s), sym (firings-zero id list s))
run_periodic (suc n) f id list h r s =
    let next : List Timer = all_later 1 list in
    let ih =
      run_periodic n f id next (omega (arith, length-all_later 1 list)) (all_later-Rising 1 list r)
        (all_later-Steady 1 list s) in
    rw (bt_timer_func-seconds f list h r, seconds-all_later list s, ← all_later-suc n list)
      (EndsWith-prepended (all_later n next) (λ cs. count id cs ≡ firings n id next) _
        (all_calls list)
        (λ more e.
          omega (arith, count-append id (all_calls list) more, count-all_calls id n list s))
        (run n f next) ih)
