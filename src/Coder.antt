-- ===== src/Coder.antt =====
-- src/logic/coder.cpp. Every encoder fills a zeroed buffer of 1024 bytes from its start.
pub mod RoundTrip
use short_message.Prelude.{ℕ, ◌+◌, ◌-◌, ◌∷◌, [], ◌++◌, Bytes, length, replicate, ltb, if◌then◌else◌}
use short_message.Machine.{Result, ok, fault, out_of_bounds, ◌>>=◌, in_bounds}
use short_message.Memory.{le16, le32, htonl, htons, c_string}
use short_message.Protocol.{ControlHead, Response, MessageResponse, MessageItem}

abbrev pub buf_size : ℕ
buf_size = 1024

-- The twelve bytes of to_id, from_id, frame_id, type and retain.
abbrev pub header : ℕ → ℕ → ℕ → ℕ → ℕ → Bytes
header to_id from_id frame_id type retain =
    le32 to_id ++ le32 from_id ++ le16 frame_id ++ type ∷ retain ∷ []

-- `res(buf, (pos - buf) + 1)` takes one zero of the buffer along.
unfoldable pub response_encode : Response → Bytes
response_encode r =
    header r.to_id r.from_id r.frame_id r.type r.retain
    ++ r.receipt_type ∷ r.receipt_indicate ∷ 0 ∷ []

-- The overload for MessageResponse; its 64-bit ids are cut to 32 bits by the stores.
unfoldable pub receipt_encode : MessageResponse → Bytes
receipt_encode r =
    header r.to_id r.from_id r.frame_id r.type r.retain
    ++ le32 item.user_id
    ++ le16 item.frame_id
    ++ item.receipt_type ∷ item.receipt_indicate ∷ 0 ∷ []
  where
    open r use {message_receipt_item as item}

-- `strcpy(pos, content)` at offset 12, and the string of all that is written with its NUL.
-- A copy that passes the buffer's end is a write out of bounds.
copy_content : Bytes → Bytes → Result Bytes
copy_content head s =
    if ltb buf_size (length head + length s + 1)
    then fault out_of_bounds
    else ok (head ++ s ++ 0 ∷ [])

-- The overload for `const ControlHead*`: the fields keep the byte order that they have.
unfoldable pub message_encode : ControlHead → Result Bytes
unfolding copy_content
message_encode h = do
  s ← in_bounds (c_string h.content)
  copy_content (header h.to_id h.from_id h.frame_id h.type h.retain) s

-- `strcpy` stops at the first NUL of `content.c_str()`; `pos` moves on by `content.size() + 1`
-- over the zeros behind, and the string of these bytes reads past the buffer if `pos` is past it.
copy_string : Bytes → Bytes → Result Bytes
copy_string head content = do
  s ← in_bounds (c_string (content ++ 0 ∷ []))
  if ltb buf_size (length head + length content + 1)
      then fault out_of_bounds
      else ok (head ++ s ++ replicate (length content + 1 - length s) 0)

-- The overload for `const MessageItem&`: the fields are put into network order here.
unfoldable pub item_encode : MessageItem → Result Bytes
unfolding copy_string
item_encode m =
    copy_string (header (htonl m.to_id) (htonl m.from_id) (htons m.frame_id) m.type m.retain)
      m.content
