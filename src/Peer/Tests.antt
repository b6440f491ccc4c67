-- ===== src/Peer/Tests.antt =====
-- The theorems on peers at work.
use bt_server.Common.{◌+◌, ◌≡◌, refl, none, some, [], ◌∷◌, ◌++◌}
use bt_server.Libc.{Bytes}
use bt_server.Libc.Memory.{be32}
use bt_server.Bcode.{BString}
use bt_server.Bcode.Start.{codes, start}
use bt_server.Timer.{TimerList, zero_value, bt_timer_update}
use bt_server.Socket.{ok, err}
use bt_server.Peer.{Peer, blank, peer_init, deal_message}
use bt_server.Peer.Deal.{deal_message-keep_alive}
use bt_server.Peer.Init.{peer_init_lem}

abbrev timers : TimerList
timers = record {
  list =
      record {
        address = 9;
        timer_id = 0;
        callback = 1;
        arg = 2;
        type = 0;
        interval = 120;
        elapse = 50;
      }
      ∷ [];
  value = zero_value;
  old_sigfunc = 4;
  new_sigfunc = 5;
  num = 1;
  handler = 5;
  itimer = zero_value;
  blocks = 9 ∷ [];
}

-- Its keep-alive timer is at 9.
abbrev peer : Peer
peer = record blank { rcv_keep_alive = some 9 }

deal_message-keep_alive_example :
    let keep_alive : Bytes → BString =
      λ behind. record { head = some (codes "##" ++ (be32 0 ++ behind)); off = 2; len = 4 } in
    (deal_message peer (keep_alive []) timers ≡ none)
    × (deal_message peer (keep_alive (0 ∷ [])) timers ≡ bt_timer_update 9 timers)
    × (deal_message peer (keep_alive (170 ∷ [])) timers ≡ some timers)
deal_message-keep_alive_example = deal_message-keep_alive peer (codes "##") [] 9 169 timers refl

peer_init_lem_example :
    (peer_init (err 111) (λ fd. none) 1 6881 none 0 (start 0) ≡ none)
    × (peer_init (ok 3) (λ fd. some 111) 1 6881 none 0 (start 0) ≡ none)
    × (peer_init (ok 3) (λ fd. none) 1 6881 none 0 (start 0)
        ≡ some (record {
          peer = some (record blank { ip = 1; port = 6881; peer_id = none; task = 0 });
          process = record (start 0) { calls = 0 + 1; live = 0 + 1 };
          open_fds = 3 ∷ [];
        }))
peer_init_lem_example =
    peer_init_lem 3 111 1 6881 0 (λ fd. some 111) (λ fd. none) none (start 0) refl refl refl
