-- ===== src/Mobile.antt =====
-- src/logic/mobile_manager.cpp. Every handler is an action on the world; its log lines are left out.
pub mod Cover
pub mod Changes
pub mod Login
pub mod Returns
use short_message.Prelude.{ℕ, ◌==◌, ◌&&◌, Bool, not, [], if◌then◌else◌}
use short_message.Prelude.Int.{ℤ, pos, int32, int_lt, u8}
use short_message.Memory.{htonl}
use short_message.Protocol.{ControlHead, Satellite, Response}
use short_message.Coder.{response_encode}
use short_message.Database.{update_cover, get_sate_cover, get_offline_message_num, is_exist_user}
use short_message.World.{Env, M, pure, ◌>>=◌, ◌>>◌, lift, query, update_or_fault, connect, close}
use short_message.Send.{send_message}
use Cover.{read_cover}

-- The response to a request: it goes back to the sender, with the request's byte order and flags.
abbrev pub response_to : ControlHead → ℕ → ℕ → Response
response_to h receipt_type receipt_indicate = record {
  to_id = h.from_id;
  from_id = h.to_id;
  frame_id = h.frame_id;
  type = 0x80;
  retain = h.retain;
  receipt_type = receipt_type;
  receipt_indicate = receipt_indicate;
}

-- receipt_indicate of a successful login: the number of waiting messages, cut off at 255.
abbrev pub waiting_count : ℤ → ℕ
waiting_count num = if not (int_lt num (pos 0)) && int_lt num (pos 255) then u8 num else 0xff

abbrev pub empty_cover : Satellite
empty_cover = record { grand_cover = 0; sat_cover_num = 0; sates_param = [] }

module _ (env : Env) where
  open env use {server, server.{Db}}

  -- The answers to a login between GetConnection and Connection_close: receipt_type and
  -- receipt_indicate.
  login_receipt : ℕ → Satellite → M Db (ℕ × ℕ)
  login_receipt user_id sate = do
    exists ← query (is_exist_user server user_id)
    if exists
        then (do
          res ← update_or_fault (update_cover server user_id sate)
          if res
              then (do
                num ← query (get_offline_message_num server user_id)
                pure (0x00, waiting_count num))
              else pure (0x01, 0x00))
        else pure (0x01, 0x00)

  unfoldable pub process_login : ControlHead → M Db (Unit {0})
  unfolding login_receipt
  process_login h = do
    sate ← lift (read_cover h.content)
    if sate.sat_cover_num == 0 then pure tt else do
      conn ← connect
      if not conn then pure tt else do
        receipt ← login_receipt (htonl h.from_id) sate
        close
        send_message env (htonl h.from_id) (response_encode (response_to h receipt.0 receipt.1))
            sate.sates_param (pos 10)
        pure tt

  -- The cover is read before the update, which clears it.
  unfoldable pub process_logout : ControlHead → M Db (Unit {0})
  process_logout h = do
    conn ← connect
    if not conn then pure tt else do
      sates ← query (get_sate_cover server (int32 (htonl h.from_id)))
      update_or_fault (update_cover server (htonl h.from_id) empty_cover)
      close
      send_message env (htonl h.from_id) (response_encode (response_to h 0x02 0x00)) sates (pos 10)
      pure tt

  unfoldable pub process_mobile_request : ControlHead → M Db (Unit {0})
  process_mobile_request h = do
    sate ← lift (read_cover h.content)
    if sate.sat_cover_num == 0 then pure tt else do
      conn ← connect
      if not conn then pure tt else do
        update_or_fault (update_cover server (htonl h.from_id) sate)
        close
        send_message env (htonl h.from_id) (response_encode (response_to h 0x03 0x00))
            sate.sates_param (pos 10)
        pure tt
