-- ===== src/Mobile/Returns.antt =====
-- When the handlers of src/logic/mobile_manager.cpp return.
use short_message.Prelude.{ℕ, ◌≡◌, refl, inl, inr, Bool, true, List, ◌∷◌, length, ◌==◌, arith}
use short_message.Prelude.Int.{pos}
use short_message.Memory.{htonl}
use short_message.Machine.{ok, Yields-ok}
use short_message.Protocol.{ControlHead, Satellite}
use short_message.Coder.{response_encode}
use short_message.Database.{update_cover, is_exist_user}
use short_message.Database.Cover.{all_beams, update_cover_lem}
use short_message.World.{Env, World, Total, updated, connect, run}
use short_message.World.Frame.{connect_total, Total-bind, Total-then, Total-if}
use short_message.Send.Sends.{send_message-Total}
use short_message.Mobile.{response_to, login_receipt, process_login}
use short_message.Mobile.Cover.{read_cover}
use short_message.Mobile.Login.{read_cover-length}

module _ (env : Env) where
  open env use {server}

  updated-Total :
      (user_id : ℕ) (cover : Satellite) (w : World server.Db)
      → cover.sat_cover_num ≡ length cover.sates_param
      → all_beams cover.sates_param ≡ true
      → Total (updated w (update_cover server user_id cover w.db))
  unfolding updated
  updated-Total user_id cover w n good = elim (update_cover_lem server user_id cover w.db n) [
    | inl (_, (snrs, writes, e)) ↦ rw (e) (_, _, refl)
    | inr (bad, e) ↦ absurd (ground arith)
  ]

  login_receipt-Total :
      (user_id : ℕ) (cover : Satellite) (w : World server.Db)
      → cover.sat_cover_num ≡ length cover.sates_param
      → all_beams cover.sates_param ≡ true
      → Total (login_receipt env user_id cover w)
  unfolding login_receipt run
  login_receipt-Total user_id cover w n good =
      Total-if (is_exist_user server user_id w.db) _ _ w
        (Total-bind _ _ (updated-Total user_id cover w n good)
          λ done w' _. Total-if done _ _ w' (_, _, refl) (_, _, refl))
        (_, _, refl)

  -- A login returns if its request is long enough for the cover that it announces, every beam id of
  -- the cover is in 1 … 10, and the pool has a connection.
  pub process_login-Total :
      (h : ControlHead) (cover : Satellite) (w : World server.Db) (rest : List Bool)
      → read_cover h.content ≡ ok cover
      → all_beams cover.sates_param ≡ true
      → w.pool ≡ true ∷ rest
      → Total (process_login env h w)
  unfolding process_login run
  process_login-Total h cover w rest e good p = rw (e) (
      Total-if (cover.sat_cover_num == 0) _ _ w (_, _, refl)
        (Total-then (connect w) _ true _ (connect_total w rest p) (
          Total-bind _ _
            (login_receipt-Total (htonl h.from_id) cover _
              (Yields-ok _ cover _ e (read_cover-length h.content)) good)
            λ receipt w' _.
              Total-bind _ _
                (send_message-Total env (htonl h.from_id)
                  (response_encode (response_to h receipt.0 receipt.1)) cover.sates_param (pos 10)
                  _)
                λ _ w'' _. (_, _, refl))))
