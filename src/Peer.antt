-- ===== src/Peer.antt =====
-- src/peer_manage.c and the receiving end of src/peer_message.c: a peer, and what a message from it
-- does to the timers.
pub mod Deal
pub mod Init
mod Tests
use bt_server.Common.{
  ℕ, ◌+◌, ◌-◌, ◌%◌, ◌^◌, Bool, true, false, Option, none, some, List, [], ◌∷◌, ltb, ◌==◌,
  if◌then◌else◌, drop,
}
use bt_server.Libc.{Bytes}
use bt_server.Libc.Memory.{read}
use bt_server.Bcode.{BString, Process}
use bt_server.Bcode.Objects.{malloc, free, b_string_free, b_string_get, b_string_get_length}
use bt_server.Timer.{TimerList, bt_timer_update}
use bt_server.Socket.{Reply, ok, err}
use bt_server.Message.PeerMessage

-- The links of a `struct list_head`: zeroed by memset, or in a ring with these other nodes.
pub data Links : Type 0 where
  zeroed : Links
  ring : List ℕ → Links

-- struct peer_mgnt, its counters left out. `none` is NULL.
pub record Peer : Type 0 where
  pub head : Links
  pub ip : ℕ
  pub port : ℕ
  pub sock : ℕ
  pub peer_id : Option BString
  pub task : ℕ
  pub rcv_keep_alive : Option ℕ
  pub send_keep_alive : Option ℕ

-- Its size on a 64-bit target.
abbrev pub sizeof_peer_mgnt : ℕ
sizeof_peer_mgnt = 88

abbrev pub blank : Peer
blank = record {
  head = zeroed;
  ip = 0;
  port = 0;
  sock = 0;
  peer_id = none;
  task = 0;
  rcv_keep_alive = none;
  send_keep_alive = none;
}

-- `none` is undefined behaviour: the memset goes through what malloc returned.
unfoldable pub peer_alloc : Process → Option (Peer × Process)
unfolding malloc
peer_alloc s = let (got, s') = malloc sizeof_peer_mgnt s in if got then some (blank, s') else none

-- list_del writes through the links, so zeroed ones are a fault.
unfoldable pub peer_free : Peer → Process → Option Process
unfolding free b_string_free
peer_free ptr s = elim ptr.head [
  | zeroed ↦ none
  | ring others ↦ some (free (b_string_free ptr.peer_id s))
]

-- What a call left: the peer it returned or NULL, the process, and the descriptors open because of
-- it.
pub record Made : Type 0 where
  pub peer : Option Peer
  pub process : Process
  pub open_fds : List ℕ

unfoldable pub refused : List ℕ → Option Process → Option Made
refused fds none = none
refused fds (some s) = some (record { peer = none; process = s; open_fds = fds })

-- The two system calls are parameters; `close` takes the descriptor back.
unfoldable pub peer_init :
    Reply → (ℕ → Option ℕ) → ℕ → ℕ → Option BString → ℕ → Process → Option Made
unfolding peer_alloc peer_free refused
peer_init socket connect ip port peer_id task_ptr s = elim (peer_alloc s) [
  | none ↦ none
  | some (fresh, s') ↦
      let ptr : Peer = record fresh { ip = ip; port = port; peer_id = peer_id; task = task_ptr } in
      elim socket [
        | err errno ↦ refused [] (peer_free ptr s')
        | ok fd ↦ elim (connect fd) [
          | none ↦ some (record { peer = some ptr; process = s'; open_fds = fd ∷ [] })
          | some errno ↦ refused [] (peer_free ptr s')
        ]
      ]
]

-- Whether 0 was returned, or -1; `none` is a read past the message's block.
unfoldable pub send_message : (Bytes → Reply) → BString → Option Bool
unfolding read b_string_get b_string_get_length
send_message send t = elim t.head [
  | none ↦ none
  | some block ↦ elim (read (b_string_get_length t) (drop (b_string_get t) block)) [
    | none ↦ none
    | some bs ↦ elim (send bs) [ ok n ↦ some true | err errno ↦ some false ]
  ]
]

-- The update of NULL is a fault.
unfoldable pub deal_keep_alive : Peer → TimerList → Option TimerList
unfolding bt_timer_update
deal_keep_alive ptr s = elim ptr.rcv_keep_alive [ none ↦ none | some p ↦ bt_timer_update p s ]

-- The byte at an offset, where the block has one.
unfoldable pub byte_at : ℕ → Bytes → Option ℕ
byte_at n block = elim (drop n block) [ [] ↦ none | c ∷ _ ↦ some c ]

-- The id is compared as a char; only keep-alive has an effect. 0 is returned always.
unfoldable pub deal_message : Peer → BString → TimerList → Option TimerList
unfolding deal_keep_alive byte_at b_string_get b_string_get_length
deal_message ptr string s =
    let len_prefix = (b_string_get_length string + (2 ^ 32 - 4)) % 2 ^ 32 in
    let block : Bytes = elim string.head [ none ↦ [] | some block ↦ block ] in
    elim (byte_at (b_string_get string + 4) block) [
      | none ↦ none
      | some type ↦
          if type == PeerMessage.keep_alive
          then (if len_prefix == 0 then deal_keep_alive ptr s else some s)
          else some s
    ]
