-- ===== src/Message/Tests.antt =====
-- The theorems on messages at work.
use bt_server.Common.{ℕ, ◌+◌, ◌≡◌, refl, none, some, [], ◌∷◌, ◌++◌, arith, length-replicate}
use bt_server.Libc.Memory.{be32}
use bt_server.Bcode.{BString}
use bt_server.Bcode.Start.{codes, start, start-Plenty}
use bt_server.Message.Steps.{ok, fault}
use bt_server.Message.{
  generate_have_message, generate_request_message, generate_cancel_message, generate_port_message,
  generate_piece_message, generate_handshake_message,
}
use bt_server.Message.Frames.{after_mallocs, frame, sent, Roomy}
use bt_server.Message.Handshake.{handshake, generate_handshake_message_lem}
use bt_server.Message.Payloads.{Exact, generators-overread}
use bt_server.Message.Piece.{generate_piece_message-in_place}

start-Roomy : (slack : ℕ) → Roomy slack (start slack)
start-Roomy slack = record {
  plenty = start-Plenty slack;
  room = λ k n. omega (arith, length-replicate {A = ℕ} (n + slack) 0xAA);
}

start-Exact : Exact (start 0)
start-Exact = record {
  plenty = start-Plenty 0;
  size = λ k n. omega (arith, length-replicate {A = ℕ} (n + 0) 0xAA);
}

generators-overread_example :
    (generate_have_message 1 (start 0) ≡ fault)
    × (generate_request_message 1 2 3 (start 0) ≡ fault)
    × (generate_cancel_message 1 2 3 (start 0) ≡ fault)
    × (generate_port_message 4 (start 0) ≡ fault)
generators-overread_example = generators-overread 1 2 3 4 (start 0) start-Exact

generate_piece_message-in_place_example :
    (m : BString) × (generate_piece_message 5 16384 4
        (record {
          head = some (codes "#" ++ (codes "-------------" ++ (codes "data" ++ codes "tail")));
          off = 1 + 13;
          len = 4;
        })
        (start 0)
      ≡ ok (some m) (start 0))
    × (sent m ≡ frame 7 (be32 5 ++ (be32 16384 ++ codes "data")))
generate_piece_message-in_place_example =
    generate_piece_message-in_place 5 16384 (codes "#") (codes "-------------") (codes "data")
      (codes "tail") (start 0) (omega arith) refl (omega arith)

-- The ids of the unit test, with the NUL of the string that holds the hash as its last byte.
generate_handshake_message_lem_example :
    (m : BString) × (generate_handshake_message
        (some ((codes "1234567890098765432" ++ 0 ∷ []) ++ []))
        (some ((codes "-AZ2060-12345678901" ++ 0 ∷ []) ++ codes "#"))
        (start 0)
      ≡ ok (some m) (after_mallocs 1 (after_mallocs 1 (start 0))))
    × (sent m
        ≡ handshake (codes "1234567890098765432" ++ 0 ∷ []) (codes "-AZ2060-12345678901" ++ 0 ∷ []))
    × (generate_handshake_message none none (start 0) ≡ ok none (start 0))
    × (generate_handshake_message (some (codes "1234567890098765432" ++ 0 ∷ [])) none (start 0)
        ≡ ok none (start 0))
generate_handshake_message_lem_example =
    generate_handshake_message_lem (codes "1234567890098765432" ++ 0 ∷ [])
      (codes "-AZ2060-12345678901" ++ 0 ∷ []) [] (codes "#") none (start 0) (start-Roomy 0) refl
      refl
