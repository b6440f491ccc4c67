-- ===== src/Timer/Pointers/Tests.antt =====
-- Timers in memory at work.
use bt_server.Common.{
  ℕ, ◌≡◌, refl, inl, true, none, some, List, [], ◌∷◌, ◌==◌, if◌then◌else◌, arith, ==_iff,
}
use bt_server.Timer.{Timer, TimerList, zero_value, call_of, done, find}
use bt_server.Timer
use bt_server.Timer.Operations.{fresh_timer}
use bt_server.Timer.Table.{Op, Table, answers, added, seen}
use bt_server.Timer.Pointers.{Memory, ret, undefined, bt_timer_func}
use bt_server.Timer.Pointers.Shape.{Shows, Poisoned}
use bt_server.Timer.Pointers.Refine.{Same, bt_timer_func-Same}
use bt_server.Timer.Pointers.Client.{Stands, run}
use bt_server.Timer.Pointers.Answers.{memory_run-answers}
use mathlib.Core.Path.{subst}
use bt_server.Common.{Bool-cases, inr, sym}
use bt_server.Common.{◌⊎◌, ◌≢◌, suc}
use bt_server.Timer.Pointers.{bt_timer_finit, bt_timer_add, bt_timer_init}
use bt_server.Timer.Pointers.Client.{Steps}
use bt_server.Timer.Pointers.Finit.{bt_timer_finit-bt_timer_init}
use bt_server.Timer.Blocks.{Held}
use bt_server.Timer.Reach.{IsSound}
use bt_server.Timer.Pointers.Course.{
  Event, adding, deleting, updating, alarm, perform, perform_at, course, Agree,
}
use bt_server.Timer.Pointers.Course.Refine.{course-Agree}
use bt_server.Timer.Pointers.Interrupted.{interrupted_del, interrupted_del_undefined}

abbrev timer : ℕ → ℕ → ℕ → ℕ → Timer
timer address type interval elapse = record {
  address = address;
  timer_id = 0;
  callback = 7;
  arg = 1;
  type = type;
  interval = interval;
  elapse = elapse;
}

-- A single timer that is due with the next tick, and a repeating one.
abbrev soon : Timer
soon = timer 10 0 3 2

abbrev later : Timer
later = timer 20 1 5 1

-- The head at 1, and the two timers behind it.
abbrev ring : Memory
ring = record {
  head = 1;
  links = record {
    next = λ p. if p == 1 then 10 else if p == 10 then 20 else 1;
    prev = λ p. if p == 1 then 20 else if p == 10 then 1 else 10;
    live = λ p. if p == 1 then true else if p == 10 then true else p == 20;
  };
  body = λ p. if p == 10 then soon else later;
  num = 2;
}

ring-Shows : Shows ring (soon ∷ later ∷ [])
ring-Shows = record {
  ring = record {
    distinct = (
      ((λ q. absurd (omega arith)), ((λ q. absurd (omega arith)), tt)),
      (((λ q. absurd (omega arith)), tt), (tt, tt)),
    );
    live = (refl, (refl, (refl, tt)));
    forth = (refl, (refl, refl));
    back = (refl, (refl, (refl, tt)));
  };
  bodies = (refl, (refl, tt));
}

bt_timer_func-Same_example :
    Same ring
      (soon ∷ later ∷ [])
      (bt_timer_func 3 3 ring)
      (Timer.bt_timer_func 3 (soon ∷ later ∷ []))
bt_timer_func-Same_example =
    bt_timer_func-Same 3 3 (soon ∷ later ∷ []) ring (omega arith) ring-Shows

interrupted_del_undefined_example :
    (m' : Memory) × (interrupted_del 3 3 20 ring ≡ ret m')
    × ((f' g' : ℕ) → bt_timer_func f' g' m' ≡ undefined)
unfolding Timer.bt_timer_func Timer.visit Timer.first_entry Timer.next_entry find Timer.expire
    Timer.replace Timer.list_del
interrupted_del_undefined_example =
    interrupted_del_undefined 3 3 soon later [] ring (omega arith) ring-Shows refl refl

-- The head at 1 as bt_timer_init leaves it, and nothing else.
abbrev no_ring : Memory
no_ring = record {
  head = 1;
  links = record {
    next = λ p. if p == 1 then 1 else 0;
    prev = λ p. if p == 1 then 1 else 0;
    live = λ p. p == 1;
  };
  body = λ p. soon;
  num = 0;
}

no_ring-Stands : Stands no_ring []
no_ring-Stands = record {
  shows = record {
    ring = record { distinct = (tt, tt); live = (refl, tt); forth = refl; back = (refl, tt) };
    bodies = tt;
  };
  tidy = λ p l. inl ((==_iff p 1).0 l);
}

abbrev no_state : TimerList
no_state = record {
  list = [];
  value = zero_value;
  old_sigfunc = 4;
  new_sigfunc = 5;
  num = 0;
  handler = 5;
  itimer = zero_value;
  blocks = [];
}

abbrev no_timers : Table
no_timers = record { timers = λ _. none; num = 0 }

abbrev session : List Op
session = Op.add 8 9 2 3 1 ∷ Op.add 4 9 2 3 0 ∷ Op.update 8 ∷ Op.look 8 ∷ Op.del 8 ∷ Op.look 8 ∷ []

memory_run-answers_example :
    (run 7 session no_ring
      ≡ ret (
          added (fresh_timer 8 0 9 2 3 1)
          ∷ added (fresh_timer 4 1 9 2 3 0)
          ∷ seen (some (fresh_timer 8 0 9 2 3 1))
          ∷ seen none
          ∷ []))
unfolding answers find
memory_run-answers_example =
    memory_run-answers 7 session no_ring no_state no_timers (omega arith) no_ring-Stands refl
      (record { queue = record { sorted = tt; distinct = tt }; num = refl; timers = λ q. refl })
      (refl, (refl, tt))
      (
        (λ q. absurd (omega arith)),
        (
          (λ q. absurd (omega arith)),
          (
            (λ q. absurd (omega arith)),
            (
              (λ q. absurd (omega arith)),
              ((λ q. absurd (omega arith)), ((λ q. absurd (omega arith)), tt)),
            ),
          ),
        ),
      )

-- The two timers, the head of their ring and nothing else.
abbrev two_state : TimerList
two_state = record no_state { list = soon ∷ later ∷ []; num = 2; blocks = 1 ∷ 10 ∷ 20 ∷ [] }

two_state-IsSound : IsSound two_state
two_state-IsSound = record {
  ring = record {
    sorted = ((omega arith, tt), (tt, tt));
    distinct = (((λ q. absurd (omega arith)), tt), (tt, tt));
    nodes = (inr (inl refl), (inr (inr (inl refl)), tt));
  };
  blocks = (
    ((λ q. absurd (omega arith)), ((λ q. absurd (omega arith)), tt)),
    (((λ q. absurd (omega arith)), tt), (tt, tt)),
  );
}

-- An address that is live is one of the three.
ring_held : (p : ℕ) → ring.links.live p ≡ true → Held two_state.blocks p
ring_held p l = elim (Bool-cases (p == 1)) [
  | inl e ↦ inl (sym ((==_iff p 1).0 e))
  | inr e ↦ elim (Bool-cases (p == 10)) [
    | inl d ↦ inr (inl (sym ((==_iff p 10).0 d)))
    | inr d ↦ inr (inr (inl (sym ((==_iff p 20).0 (rw (e, d) at l)))))
  ]
]

ring_live : (p : ℕ) → Held two_state.blocks p → ring.links.live p ≡ true
ring_live p (inl e) = subst (λ q. ring.links.live q ≡ true) e refl
ring_live p (inr (inl e)) = subst (λ q. ring.links.live q ≡ true) e refl
ring_live p (inr (inr (inl e))) = subst (λ q. ring.links.live q ≡ true) e refl
ring_live p (inr (inr (inr e))) = elim e [ ]

-- Nothing is allocated and out of the ring.
ring_cut : Poisoned ring (soon ∷ later ∷ [])
ring_cut q l (a, (b, (c, d))) = elim (Bool-cases (q == 1)) [
  | inl e ↦ absurd (a (sym ((==_iff q 1).0 e)))
  | inr e ↦ elim (Bool-cases (q == 10)) [
    | inl d ↦ absurd (b (sym ((==_iff q 10).0 d)))
    | inr d ↦ absurd (c (sym ((==_iff q 20).0 (rw (e, d) at l))))
  ]
]

abbrev events : List Event
events = alarm ∷ adding 30 8 1 4 1 ∷ updating 20 ∷ alarm ∷ deleting 30 ∷ []

course-Agree_example :
    Agree 1 7 (course (perform 4) events two_state) (course (perform_at 4 9) events ring)
unfolding perform Timer.bt_timer_func Timer.visit Timer.first_entry Timer.next_entry find
    Timer.expire Timer.replace Timer.list_del Timer.bt_timer_add Timer.enqueue Timer.bt_timer_update
    Timer.get_position Timer.list_add_tail Timer.add_last Timer.insert_before Timer.bt_timer_del
    Timer.free_block
course-Agree_example =
    course-Agree 1 4 9 events two_state ring
      (record {
        place = refl;
        sound = two_state-IsSound;
        shows = ring-Shows;
        num = refl;
        held = ring_held;
        live = ring_live;
        cut = ring_cut;
        bare = refl;
      })
      (
        tt,
        (
          (
            (
              (λ q. absurd (omega arith)),
              ((λ q. absurd (omega arith)), ((λ q. absurd (omega arith)), tt)),
            ),
            (λ q. absurd (omega arith)),
          ),
          ((λ q. absurd (omega arith)), (tt, ((λ q. absurd (omega arith)), tt))),
        ),
      )
      (omega arith)

ring_tidy :
    (p : ℕ)
    → ring.links.live p ≡ true
    → (p ≡ 1) ⊎ ((t : Timer) × (find p (soon ∷ later ∷ []) ≡ some t))
unfolding find
ring_tidy p l = elim (ring_held p l) [
  | inl e ↦ inl (sym e)
  | inr (inl e) ↦ inr (soon, subst (λ q. find q (soon ∷ later ∷ []) ≡ some soon) e refl)
  | inr (inr (inl e)) ↦ inr (later, subst (λ q. find q (soon ∷ later ∷ []) ≡ some later) e refl)
  | inr (inr (inr e)) ↦ elim e [ ]
]

bt_timer_finit-bt_timer_init_example :
    (m' : Memory) × (bt_timer_finit 3 ring ≡ ret m')
    × ((p : ℕ) → m'.links.live p ≡ true → p ≡ 1)
    × ((g address func arg interval type : ℕ)
        → address ≢ 0
        → bt_timer_add (suc g) (some address) func arg interval type m' ≡ undefined)
    × Steps (bt_timer_init m') 1 0 []
bt_timer_finit-bt_timer_init_example =
    bt_timer_finit-bt_timer_init 3 (soon ∷ later ∷ []) ring (omega arith)
      (record { shows = ring-Shows; tidy = ring_tidy }) refl
