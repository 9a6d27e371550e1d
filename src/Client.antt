-- ===== src/Client.antt =====
-- The client side of the protocol as the repository's test programs have it:
-- test/LogicClient builds a request, test/LogicServer reads what the server sends.
-- Their protocol.h has `to_id` first in ControlHead, where src/logic/protocol.h has `from_id`.
pub mod Access
pub mod Order
use short_message.Prelude.{ℕ, ◌+◌, ltb, length, if◌then◌else◌, ◌∷◌, [], ◌++◌, Bytes}
use short_message.Machine.{Result, ok, fault, out_of_bounds, ◌>>=◌, in_bounds}
use short_message.Memory.{le16, le32, read8, read16, read32, htonl, htons, c_string}
use short_message.Protocol.{Response}

-- ControlHead of test/LogicServer/src/logic/protocol.h
pub record ClientHead : Type 0 where
  pub to_id : ℕ
  pub from_id : ℕ
  pub frame_id : ℕ
  pub type : ℕ
  pub retain : ℕ
  pub content : Bytes

-- `(ControlHead*) response.content.c_str()`
unfoldable pub client_head : Bytes → Result ClientHead
client_head p = do
  (to_id, p₁) ← in_bounds (read32 p)
  (from_id, p₂) ← in_bounds (read32 p₁)
  (frame_id, p₃) ← in_bounds (read16 p₂)
  (type, p₄) ← in_bounds (read8 p₃)
  (retain, p₅) ← in_bounds (read8 p₄)
  ok (record {
    to_id = to_id;
    from_id = from_id;
    frame_id = frame_id;
    type = type;
    retain = retain;
    content = p₅;
  })

-- `(Response*) response.content.c_str()`
unfoldable pub client_response : Bytes → Result Response
client_response p = do
  (to_id, p₁) ← in_bounds (read32 p)
  (from_id, p₂) ← in_bounds (read32 p₁)
  (frame_id, p₃) ← in_bounds (read16 p₂)
  (type, p₄) ← in_bounds (read8 p₃)
  (retain, p₅) ← in_bounds (read8 p₄)
  (receipt_type, p₆) ← in_bounds (read8 p₅)
  (receipt_indicate, p₇) ← in_bounds (read8 p₆)
  ok (record {
    to_id = to_id;
    from_id = from_id;
    frame_id = frame_id;
    type = type;
    retain = retain;
    receipt_type = receipt_type;
    receipt_indicate = receipt_indicate;
  })

-- What test/LogicServer prints as the content of a message of type 0x40.
unfoldable pub received_content : Bytes → Result Bytes
received_content p = do head ← client_head p; in_bounds (c_string head.content)

-- What stands in the buffer of test/LogicClient/src/main.cpp, for a content without NUL.
unfoldable pub request_bytes : ℕ → ℕ → ℕ → ℕ → ℕ → Bytes → Bytes
request_bytes to_id from_id frame_id type retain content =
    le32 (htonl to_id)
    ++ le32 (htonl from_id)
    ++ le16 (htons frame_id)
    ++ type ∷ retain ∷ []
    ++ content
    ++ 0 ∷ []

-- The request that test/LogicClient/src/main.cpp builds: `strcpy` copies the array `content` up to its
-- first NUL behind the 12 bytes of the head, into a buffer of 1024 bytes.
unfoldable pub client_request : ℕ → ℕ → ℕ → ℕ → ℕ → Bytes → Result Bytes
client_request to_id from_id frame_id type retain content = do
  s ← in_bounds (c_string content)
  if ltb 1024 (12 + length s + 1)
      then fault out_of_bounds
      else ok (request_bytes to_id from_id frame_id type retain s)
