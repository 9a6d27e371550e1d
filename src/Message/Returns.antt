-- ===== src/Message/Returns.antt =====
-- When the handlers of src/logic/message_manager.cpp return.
use short_message.Prelude.{
  ◌+◌, ◌-◌, ◌≡◌, ◌≤◌, refl, Bool, true, not, some, List, [], ◌∷◌, Bytes, length,
}
use short_message.Prelude.Int.{pos, int32}
use short_message.Memory.{htonl, c_string}
use short_message.Protocol.{ControlHead, SateParam}
use short_message.Coder.{response_encode}
use short_message.Coder.RoundTrip.{message_encode_total}
use short_message.Database.{insert_offline_message, insert_store_message, get_sate_cover}
use short_message.World.{Env, World, Total, updated, connect, run}
use short_message.World.Frame.{connect_total, Total-bind, Total-then, Total-if}
use short_message.Send.Sends.{send_message-Total}
use short_message.Message.{
  cached_receipt, forward, send_receipt, answer_complete, process_complete_message, relay_simple,
  process_simple_message,
}

module _ (env : Env) where
  open env use {server}

  send_receipt-Total :
      (h : ControlHead) (sates : List SateParam) (w : World server.Db)
      → Total (send_receipt env h sates w)
  unfolding send_receipt run
  send_receipt-Total h [] w = (_, _, refl)
  send_receipt-Total h (s ∷ sates) w =
      Total-bind _ _
        (send_message-Total env (htonl h.from_id) (response_encode (cached_receipt h)) (s ∷ sates)
          (pos 10) w)
        λ _ w' _. (_, _, refl)

  module _ (h : ControlHead) (s : Bytes) (e : c_string h.content ≡ some s)
      (le : length s ≤ 1011) where
    forward-Total : (sates : List SateParam) (w : World server.Db) → Total (forward env h sates w)
    unfolding forward run
    forward-Total [] w = (_, _, refl)
    forward-Total (x ∷ sates) w = rw (message_encode_total h s e le) (
        Total-bind _ _ (send_message-Total env (htonl h.to_id) _ (x ∷ sates) (pos 5) w)
          λ _ w' _. (_, _, refl))

    answer_complete-Total :
        (cached : Bool) (w : World server.Db) → Total (answer_complete env h cached w)
    unfolding answer_complete run
    answer_complete-Total cached w =
        Total-if (not cached) _ _ w (_, _, refl)
          (Total-bind _ _
            (send_receipt-Total h (get_sate_cover server (int32 (htonl h.from_id)) w.db)
              (record w { held = w.held - 1 }))
            λ _ w' _. forward-Total (get_sate_cover server (int32 (htonl h.to_id)) w.db) w')

    inserted-Total :
        (w : World server.Db) → Total (updated w (insert_offline_message server w.now h w.db))
    unfolding updated insert_offline_message
    inserted-Total w = rw (e) (_, _, refl)

    -- A complete message (0x60) whose content ends in a NUL after at most 1011 bytes is handled to
    -- the end if the pool has a connection.
    pub process_complete_message-Total :
        (w : World server.Db) (rest : List Bool)
        → w.pool ≡ true ∷ rest
        → Total (process_complete_message env h w)
    unfolding process_complete_message run
    process_complete_message-Total w rest p =
        Total-then (connect w) _ true _ (connect_total w rest p) (
          Total-bind _ _ (inserted-Total (record w { pool = rest; held = w.held + 1 }))
            λ cached w' _. answer_complete-Total cached w')

    stored-Total :
        (w : World server.Db) → Total (updated w (insert_store_message server w.now h w.db))
    unfolding updated insert_store_message
    stored-Total w = rw (e) (_, _, refl)

    relay_simple-Total : (stored : Bool) (w : World server.Db) → Total (relay_simple env h stored w)
    unfolding relay_simple run
    relay_simple-Total stored w =
        Total-if (not stored) _ _ w (_, _, refl)
          (forward-Total (get_sate_cover server (int32 (htonl h.to_id)) w.db)
            (record w { held = w.held - 1 }))

    -- A simple message (0x40) of at most 1011 bytes up to its NUL is handled to the end if the pool
    -- has a connection.
    pub process_simple_message-Total :
        (w : World server.Db) (rest : List Bool)
        → w.pool ≡ true ∷ rest
        → Total (process_simple_message env h w)
    unfolding process_simple_message run
    process_simple_message-Total w rest p =
        Total-then (connect w) _ true _ (connect_total w rest p) (
          Total-bind _ _ (stored-Total (record w { pool = rest; held = w.held + 1 }))
            λ stored w' _. relay_simple-Total stored w')
