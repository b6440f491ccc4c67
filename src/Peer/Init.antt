-- ===== src/Peer/Init.antt =====
-- peer_init of src/peer_manage.c.
use bt_server.Common.{ℕ, ◌+◌, ◌≡◌, refl, true, Option, none, some, [], ◌∷◌}
use bt_server.Bcode.{BString, Process}
use bt_server.Bcode.Objects.{malloc}
use bt_server.Socket.{ok, err}
use bt_server.Peer.{blank, refused, peer_alloc, peer_free, peer_init}

-- Where malloc succeeds: a peer whose socket or connection is refused makes peer_init run into
-- undefined behaviour, since peer_free unlinks a peer that was never linked; a peer that is reached
-- comes back with its address, but `sock` is 0 whatever the descriptor, which stays open.
pub peer_init_lem :
    (fd e ip port task : ℕ) (refusing accepting : ℕ → Option ℕ) (peer_id : Option BString)
    (s : Process)
    → s.grant s.calls 88 ≡ true
    → refusing fd ≡ some e
    → accepting fd ≡ none
    → (peer_init (err e) accepting ip port peer_id task s ≡ none)
      × (peer_init (ok fd) refusing ip port peer_id task s ≡ none)
      × (peer_init (ok fd) accepting ip port peer_id task s
          ≡ some (record {
            peer = some (record blank { ip = ip; port = port; peer_id = peer_id; task = task });
            process = record s { calls = s.calls + 1; live = s.live + 1 };
            open_fds = fd ∷ [];
          }))
unfolding peer_init peer_alloc peer_free refused malloc
peer_init_lem fd e ip port task refusing accepting peer_id s g r a = (
  rw (peer_init, peer_alloc, malloc, g) refl,
  rw (peer_init, peer_alloc, malloc, g, r) refl,
  rw (peer_init, peer_alloc, malloc, g, a) refl,
)
