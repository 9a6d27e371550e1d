-- ===== src/Message.antt =====
-- src/logic/message_manager.cpp. ProcessForwardNoAckMessage and ProcessBackwardNoAckMessage are
-- empty there.
pub mod Safety
pub mod Simple
pub mod Settled
pub mod Receipt
pub mod Returns
use short_message.Prelude.{ℕ, ◌==◌, ◌&&◌, Bool, not, List, [], ◌∷◌, if◌then◌else◌}
use short_message.Prelude.Int.{pos, int32}
use short_message.Memory.{htonl, htons}
use short_message.Protocol.{
  ControlHead, SateParam, Response, MessageItem, UserAckResponse, user_ack_response,
}
use short_message.Coder.{response_encode, message_encode}
use short_message.Database.{
  get_sate_cover, insert_store_message, insert_store_item, insert_offline_message,
  delete_offline_message, get_offline_message,
}
use short_message.World.{
  Env, M, pure, ◌>>=◌, ◌>>◌, lift, now, query, update, update_or_fault, connect, close, clear,
}
use short_message.Send.{send_message}

-- The receipt for a sender whose message has been cached.
abbrev pub cached_receipt : ControlHead → Response
cached_receipt h = record {
  to_id = htonl (htonl h.from_id);
  from_id = 0;
  frame_id = h.frame_id;
  type = 0x80;
  retain = 0;
  receipt_type = 0x50;
  receipt_indicate = 0;
}

abbrev is_empty : List SateParam → Bool
is_empty [] = Bool.true
is_empty (s ∷ ss) = Bool.false

module _ (env : Env) where
  open env use {server, server.{Db}}

  -- `MessageEncode` and `SendMessage` at level 5, for a receiver with a cover.
  unfoldable pub forward : ControlHead → List SateParam → M Db (Unit {0})
  forward h sates = if is_empty sates then pure tt else do
    str ← lift (message_encode h)
    send_message env (htonl h.to_id) str sates (pos 5)
    pure tt

  unfoldable pub relay_simple : ControlHead → Bool → M Db (Unit {0})
  relay_simple h stored =
      if not stored
      then close
      else do sates ← query (get_sate_cover server (int32 (htonl h.to_id))); close; forward h sates

  unfoldable pub process_simple_message : ControlHead → M Db (Unit {0})
  process_simple_message h = do
    conn ← connect
    if not conn then pure tt else do
      t ← now
      stored ← update_or_fault (insert_store_message server t h)
      relay_simple h stored

  unfoldable pub process_forward_no_ack_message : ControlHead → M Db (Unit {0})
  process_forward_no_ack_message h = pure tt

  unfoldable pub process_backward_no_ack_message : ControlHead → M Db (Unit {0})
  process_backward_no_ack_message h = pure tt

  unfoldable pub send_receipt : ControlHead → List SateParam → M Db (Unit {0})
  send_receipt h sates = if is_empty sates then pure tt else do
    send_message env (htonl h.from_id) (response_encode (cached_receipt h)) sates (pos 10)
    pure tt

  -- After the insertion into the cache; where that has failed the connection is cleared, and not
  -- closed.
  unfoldable pub answer_complete : ControlHead → Bool → M Db (Unit {0})
  answer_complete h cached = if not cached then clear else do
    sates_to_user ← query (get_sate_cover server (int32 (htonl h.to_id)))
    sates_from_user ← query (get_sate_cover server (int32 (htonl h.from_id)))
    close
    send_receipt h sates_from_user
    forward h sates_to_user

  unfoldable pub process_complete_message : ControlHead → M Db (Unit {0})
  process_complete_message h = do
    conn ← connect
    if not conn then pure tt else do
      t ← now
      cached ← update_or_fault (insert_offline_message server t h)
      answer_complete h cached

  -- The body under `if (GetOfflineMessage(...) && msg.type == 0x60)`.
  unfoldable pub settle : ℕ → ℕ → ℕ → MessageItem → ℕ → M Db (Unit {0})
  settle from_id to_id frame_id msg recv_time = do
    update (delete_offline_message server from_id to_id frame_id)
    t ← now
    update (insert_store_item server t msg recv_time)
    pure tt

  -- From GetConnection on.
  unfoldable pub process_acknowledged :
      MessageItem → ℕ → ControlHead → UserAckResponse → M Db (Unit {0})
  process_acknowledged msg recv_time h ack = do
    connect
    found ← query (
        get_offline_message server (htonl h.to_id) (htonl h.from_id) (htons ack.frame_id) msg
          recv_time)
    (if found.0 && found.1.type == 0x60
        then settle (htonl h.to_id) (htonl h.from_id) (htons ack.frame_id) found.1 found.2
        else pure tt)
    close

  -- `msg` and `recv_time` are not initialised: what they hold at first is an argument here.
  unfoldable pub process_receipt : MessageItem → ℕ → ControlHead → M Db (Unit {0})
  process_receipt msg recv_time h = do
    ack ← lift (user_ack_response h.content)
    if not (ack.receipt_type == 0x60) then pure tt else process_acknowledged msg recv_time h ack
