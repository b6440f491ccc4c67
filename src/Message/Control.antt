-- ===== src/Message/Control.antt =====
-- The messages of src/peer_message.c without a payload.
use bt_server.Common.{◌+◌, []}
use bt_server.Bcode.{Process}
use bt_server.Message.Frames.{frame, Makes, Roomy, set_prefix_and_msgid-short}
use bt_server.Message.{
  generate_choke_message, generate_unchoke_message, generate_interested_message,
  generate_not_interested_message,
}

-- The choke, unchoke, interested and not interested messages are the frames of their ids with an
-- empty payload, where malloc does not refuse. Each makes two blocks.
control_messages-frame :
    (s : Process)
    → Roomy 0 s
    → Makes (frame 0 []) (s.live + 2) (generate_choke_message s)
      × Makes (frame 1 []) (s.live + 2) (generate_unchoke_message s)
      × Makes (frame 2 []) (s.live + 2) (generate_interested_message s)
      × Makes (frame 3 []) (s.live + 2) (generate_not_interested_message s)
unfolding generate_choke_message generate_unchoke_message generate_interested_message
    generate_not_interested_message
control_messages-frame s r = (
  set_prefix_and_msgid-short 0 s r,
  set_prefix_and_msgid-short 1 s r,
  set_prefix_and_msgid-short 2 s r,
  set_prefix_and_msgid-short 3 s r,
)
