-- ===== src/Protocol.antt =====
-- src/logic/protocol.h: the signal types and the packed structs of the wire protocol.
-- A cast of a buffer to a struct is a chain of loads; a field keeps its byte order in the buffer.
pub mod Signal
use short_message.Prelude.{ℕ, List, Bytes}
use short_message.Prelude.Int.{ℤ}
use short_message.Memory.{read8, read16, read32}
use short_message.Machine.{Result, ok, ◌>>=◌, in_bounds}

-- `content` is all that stands behind the fields, up to and with the NUL of `c_str()`.
pub record ControlHead : Type 0 where
  pub from_id : ℕ
  pub to_id : ℕ
  pub frame_id : ℕ
  pub type : ℕ
  pub retain : ℕ
  pub content : Bytes

-- `(ControlHead*) p`
unfoldable pub control_head : Bytes → Result ControlHead
control_head p = do
  (from_id, p₁) ← in_bounds (read32 p)
  (to_id, p₂) ← in_bounds (read32 p₁)
  (frame_id, p₃) ← in_bounds (read16 p₂)
  (type, p₄) ← in_bounds (read8 p₃)
  (retain, p₅) ← in_bounds (read8 p₄)
  ok (record {
    from_id = from_id;
    to_id = to_id;
    frame_id = frame_id;
    type = type;
    retain = retain;
    content = p₅;
  })

-- The SNR is the 32 bits of a `float`.
pub record SateParam : Type 0 where
  pub sate_id : ℤ
  pub beam_id : ℤ
  pub snr : ℕ

pub record Satellite : Type 0 where
  pub grand_cover : ℕ
  pub sat_cover_num : ℕ
  pub sates_param : List SateParam

pub record Response : Type 0 where
  pub to_id : ℕ
  pub from_id : ℕ
  pub frame_id : ℕ
  pub type : ℕ
  pub retain : ℕ
  pub receipt_type : ℕ
  pub receipt_indicate : ℕ

pub record MessageReceiptItem : Type 0 where
  pub user_id : ℕ
  pub frame_id : ℕ
  pub receipt_type : ℕ
  pub receipt_indicate : ℕ

pub record MessageResponse : Type 0 where
  pub to_id : ℕ
  pub from_id : ℕ
  pub frame_id : ℕ
  pub type : ℕ
  pub retain : ℕ
  pub message_receipt_item : MessageReceiptItem

pub record UserAckResponse : Type 0 where
  pub frame_id : ℕ
  pub receipt_type : ℕ
  pub receipt_indicate : ℕ

pub record MesaageInquireRequest : Type 0 where
  pub num : ℕ
  pub start_time : ℕ
  pub end_time : ℕ

-- `(UserAckResponse*) content`
unfoldable pub user_ack_response : Bytes → Result UserAckResponse
user_ack_response p = do
  (frame_id, p₁) ← in_bounds (read16 p)
  (receipt_type, p₂) ← in_bounds (read8 p₁)
  (receipt_indicate, p₃) ← in_bounds (read8 p₂)
  ok (record {
    frame_id = frame_id;
    receipt_type = receipt_type;
    receipt_indicate = receipt_indicate;
  })

-- `content` is a std::string.
pub record MessageItem : Type 0 where
  pub to_id : ℕ
  pub from_id : ℕ
  pub frame_id : ℕ
  pub type : ℕ
  pub retain : ℕ
  pub content : Bytes
