-- ===== src/Timer/Pointers.antt =====
-- src/bt_timer.c on memory: structs bt_timer at addresses, linked by pointers as include/list.h does.
pub mod Shape
pub mod Position
pub mod Steps
pub mod Bodies
pub mod Sequence
pub mod Expire
pub mod Behind
pub mod Refine
pub mod Blocks
pub mod Calls
pub mod Client
pub mod Answers
pub mod Interrupted
pub mod Course
pub mod Finit
mod Tests
use bt_server.Common.{
  ℕ, zero, suc, ◌+◌, ◌%◌, ◌^◌, Bool, true, false, Option, none, some, List, [], ◌∷◌, ltb, leb, ◌==◌,
  not, if◌then◌else◌,
}
use bt_server.Links.{Store, set, next_at, write_all, init_list_head, list_add_tail, list_del}
use bt_server.Timer.{Timer, Call, call_of, bt_timer_single}

-- `head` is the address of the list_head in timer_list. `body p` is the struct at `p`, whose own
-- list_head is taken to be at `p` as well; `num` is timer_list.num.
pub record Memory : Type 0 where
  pub head : ℕ
  pub links : Store
  pub body : ℕ → Timer
  pub num : ℕ

-- A result; undefined behaviour; no fuel.
pub data Run (A : Type 0) : Type 0 where
  ret : A → Run A
  undefined : Run A
  endless : Run A

infixl 5 ◌>>=◌
abbrev pub ◌>>=◌ : {A B : Type 0} → Run A → (A → Run B) → Run B
ret a >>= k = k a
undefined >>= k = undefined
endless >>= k = endless

abbrev pub lift : {A : Type 0} → Option A → Run A
lift none = undefined
lift (some a) = ret a

abbrev pub with_links : Memory → Store → Memory
with_links m s = record m { links = s }

-- The fields of the struct at `p`, read
unfoldable pub body_at : ℕ → Memory → Option Timer
body_at p m = if m.links.live p then some (m.body p) else none

-- Assignments to fields of the struct at `p`
abbrev pub with_body : ℕ → Timer → Memory → Memory
with_body p t m = record m { body = λ q. if p == q then t else m.body q }

-- The loop of get_position from `vec` on
unfoldable pub position_loop : ℕ → ℕ → ℕ → Memory → Run ℕ
unfolding next_at body_at
position_loop zero interval vec m = endless
position_loop (suc g) interval vec m = elim (vec == m.head) [
  | true ↦ ret vec
  | false ↦ do
    t ← lift (body_at vec m)
    elim (ltb interval t.interval) [
      | true ↦ ret vec
      | false ↦ lift (next_at vec m.links) >>= λ n. position_loop g interval n m
    ]
]

unfoldable pub get_position : ℕ → ℕ → Memory → Run ℕ
unfolding next_at position_loop
get_position g interval m = do vec ← lift (next_at m.head m.links); position_loop g interval vec m

-- `list_add_tail(&ptr->head, get_position(interval, &timer_list.list))`
unfoldable pub enqueue : ℕ → ℕ → ℕ → Memory → Run Memory
unfolding get_position list_add_tail
enqueue g ptr interval m = do
  pos ← get_position g interval m
  s ← lift (list_add_tail ptr pos m.links)
  ret (with_links m s)

-- The body of the handler's loop, for the fields `t` of `vec`
unfoldable pub expire_body : ℕ → ℕ → Timer → Memory → Run (Memory × Option Call)
unfolding list_del enqueue
expire_body g vec t m =
    let aged : Timer = record t { elapse = (t.elapse + 1) % 2 ^ 32 } in
    let reset = with_body vec (record t { elapse = 0 }) m in
    elim (leb aged.interval aged.elapse) [
      | true ↦ do
        s ← lift (list_del vec reset.links)
        r ← elim (not (t.type == bt_timer_single)) [
          | true ↦ enqueue g vec t.interval (with_links reset s)
          | false ↦ ret (with_links reset s)
        ]
        ret (r, some (call_of t))
      | false ↦ ret (with_body vec aged m, none)
    ]

unfoldable pub expire : ℕ → ℕ → Memory → Run (Memory × Option Call)
unfolding expire_body body_at
expire g vec m = do t ← lift (body_at vec m); expire_body g vec t m

abbrev pub noted : Option Call → List Call → List Call
noted none cs = cs
noted (some c) cs = c ∷ cs

-- The rounds of the handler's loop from `vec` on, where `tmp` is the entry behind it
unfoldable pub visit : ℕ → ℕ → ℕ → ℕ → Memory → Run (Memory × List Call)
unfolding expire next_at
visit zero g vec tmp m = endless
visit (suc f) g vec tmp m = elim (vec == m.head) [
  | true ↦ ret (m, [])
  | false ↦ do
    r ← expire g vec m
    n ← lift (next_at tmp r.0.links)
    q ← visit f g tmp n r.0
    ret (q.0, noted r.1 q.1)
]

unfoldable pub bt_timer_func : ℕ → ℕ → Memory → Run (Memory × List Call)
unfolding visit next_at
bt_timer_func f g m = do
  vec ← lift (next_at m.head m.links)
  tmp ← lift (next_at vec m.links)
  visit f g vec tmp m

-- malloc gave a block at `address`, and its fields are filled in with those of `t`.
abbrev pub allocated : ℕ → Timer → Memory → Memory
allocated address t m = with_body address t (record m {
  links = record m.links { live = λ q. if address == q then true else m.links.live q };
  num = m.num + 1;
})

-- The timer that is returned is at `address`; the memset of a block at NULL is undefined.
unfoldable pub bt_timer_add : ℕ → Option ℕ → ℕ → ℕ → ℕ → ℕ → Memory → Run Memory
unfolding enqueue
bt_timer_add g none func arg interval type m = undefined
bt_timer_add g (some address) func arg interval type m =
    let t : Timer = record {
      address = address;
      timer_id = m.num;
      callback = func;
      arg = arg;
      type = type;
      interval = interval;
      elapse = 0;
    } in
    enqueue g address interval (allocated address t m)

-- free
abbrev pub released : ℕ → Memory → Memory
released p m = record m {
  links = record m.links { live = λ q. if p == q then false else m.links.live q };
}

unfoldable pub bt_timer_del : ℕ → Memory → Run Memory
unfolding list_del
bt_timer_del ptr m = do s ← lift (list_del ptr m.links); ret (released ptr (with_links m s))

unfoldable pub bt_timer_update : ℕ → ℕ → Memory → Run Memory
unfolding list_del enqueue body_at
bt_timer_update g ptr m = do
  s ← lift (list_del ptr m.links)
  t ← lift (body_at ptr m)
  enqueue g ptr t.interval (with_body ptr (record t { elapse = 0 }) (with_links m s))

-- The loop of bt_timer_finit from `vec` on, where `tmp` is the entry behind it
unfoldable pub del_loop : ℕ → ℕ → ℕ → Memory → Run Memory
unfolding bt_timer_del next_at
del_loop zero vec tmp m = endless
del_loop (suc f) vec tmp m = elim (vec == m.head) [
  | true ↦ ret m
  | false ↦ do m' ← bt_timer_del vec m; n ← lift (next_at tmp m'.links); del_loop f tmp n m'
]

unfoldable pub del_all : ℕ → Memory → Run Memory
unfolding del_loop next_at
del_all f m = do
  vec ← lift (next_at m.head m.links)
  tmp ← lift (next_at vec m.links)
  del_loop f vec tmp m

-- memset of timer_list, whose head has the links NULL then
abbrev pub cleared : Memory → Memory
cleared m = record m {
  links = record m.links { next = set m.head 0 m.links.next; prev = set m.head 0 m.links.prev };
  num = 0;
}

-- What bt_timer_init does to the ring
unfoldable pub bt_timer_init : Memory → Run Memory
unfolding write_all
bt_timer_init m = do
  s ← lift (write_all (init_list_head m.head) (cleared m).links)
  ret (with_links (cleared m) s)

-- What bt_timer_finit does to the ring
unfoldable pub bt_timer_finit : ℕ → Memory → Run Memory
unfolding del_all
bt_timer_finit f m = do m' ← del_all f m; ret (cleared m')
