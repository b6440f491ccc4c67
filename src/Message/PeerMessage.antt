-- ===== src/Message/PeerMessage.antt =====
-- The message ids of include/peer_message.h. The enum gives keep-alive and choke the same value.
use bt_server.Common.{ℕ}

abbrev pub keep_alive : ℕ
keep_alive = 0

abbrev pub choke : ℕ
choke = 0

abbrev pub unchoke : ℕ
unchoke = 1

abbrev pub interested : ℕ
interested = 2

abbrev pub not_interested : ℕ
not_interested = 3

abbrev pub have : ℕ
have = 4

abbrev pub bitfield : ℕ
bitfield = 5

abbrev pub request : ℕ
request = 6

abbrev pub piece : ℕ
piece = 7

abbrev pub cancel : ℕ
cancel = 8

abbrev pub port : ℕ
port = 9
