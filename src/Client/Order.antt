-- ===== src/Client/Order.antt =====
-- The test client's request: that it is built, and, as the server's ControlHead of src/logic/protocol.h takes it apart.
use short_message.Prelude.{ℕ, ◌≤◌, length, ◌<◌, ◌^◌, ◌≡◌, ◌∷◌, [], ◌++◌, Bytes, append_assoc, arith}
use short_message.Machine.{ok}
use short_message.Memory.{htonl, htons, IsText, c_string-append}
use short_message.Protocol.{control_head}
use short_message.Client.{request_bytes, client_request}

-- The server reads the client's receiver as the sender, and its sender as the receiver; frame,
-- type, flags and content are those that were sent.
pub control_head-request_bytes :
    (to_id from_id frame_id type retain : ℕ) (content : Bytes)
    → to_id < 2 ^ 32
    → from_id < 2 ^ 32
    → frame_id < 2 ^ 16
    → control_head (request_bytes to_id from_id frame_id type retain content ++ 0 ∷ [])
      ≡ ok (record {
        from_id = htonl to_id;
        to_id = htonl from_id;
        frame_id = htons frame_id;
        type = type;
        retain = retain;
        content = content ++ 0 ∷ 0 ∷ [];
      })
unfolding control_head request_bytes
control_head-request_bytes to_id from_id frame_id type retain content lt lf ln =
    ground (arith, append_assoc content (0 ∷ []) (0 ∷ []))

-- A text of at most 1011 bytes is copied whole.
pub client_request-request_bytes :
    (to_id from_id frame_id type retain : ℕ) (content : Bytes)
    → IsText content
    → length content ≤ 1011
    → client_request to_id from_id frame_id type retain (content ++ 0 ∷ [])
      ≡ ok (request_bytes to_id from_id frame_id type retain content)
unfolding client_request
client_request-request_bytes to_id from_id frame_id type retain content t le =
    ground (arith, c_string-append content [] t)
