-- ===== src/Handler/Invariants.antt =====
-- What every request keeps: a property of the database that the statements of the handlers keep.
use short_message.Prelude.{ℕ, ◌≡◌, ◌==◌, ==_iff, not, inl, inr, List, [], ◌∷◌, ◌++◌, Bytes, arith}
use short_message.Prelude.Int.{ℤ}
use short_message.Machine.{ok, Yields, Result-cases}
use short_message.Memory.{htonl, htons}
use short_message.Protocol.{
  ControlHead, MessageItem, SateParam, Satellite, UserAckResponse, user_ack_response, control_head,
}
use short_message.Protocol.Signal
use short_message.Database.{
  update_cover, insert_store_message, insert_offline_message, insert_store_item,
  delete_offline_message,
}
use short_message.World.{Env, run}
use short_message.World.Stable.{Stable, Stable-pure, Stable-if, Stable-if_eq, stable_rules}
use short_message.Send.{send_message}
use short_message.Mobile.{process_login, process_logout, process_mobile_request}
use short_message.Message.{
  forward, send_receipt, settle, process_simple_message, relay_simple, answer_complete,
  process_complete_message, process_receipt, process_acknowledged, process_forward_no_ack_message,
  process_backward_no_ack_message,
}
use short_message.Handler.{Uninitialised, unset_message, dispatch, access_to_logic}

-- Every statement but the deletion keeps the property.
pub record Closed (env : Env) (P : env.Db → Type 0) : Type 0 where
  pub cover :
      (user_id : ℕ) (cover : Satellite) (db : env.Db)
      → P db
      → Yields (update_cover env.server user_id cover db) (λ r. P r.1)
  pub store_message :
      (now : ℕ) (h : ControlHead) (db : env.Db)
      → P db
      → Yields (insert_store_message env.server now h db) (λ r. P r.1)
  pub cache_message :
      (now : ℕ) (h : ControlHead) (db : env.Db)
      → P db
      → Yields (insert_offline_message env.server now h db) (λ r. P r.1)
  pub store_item :
      (now : ℕ) (msg : MessageItem) (recv_time : ℕ) (db : env.Db)
      → P db
      → P (insert_store_item env.server now msg recv_time db).1

module _ (env : Env) (P : env.Db → Type 0) where
  open env use {server, server.{Db}}

  -- The deletion of one key keeps it.
  abbrev pub Deletes : ℕ → ℕ → ℕ → Type 0
  Deletes from_id to_id frame_id =
      (db : Db) → P db → P (delete_offline_message server from_id to_id frame_id db).1

  -- The deletion for a receipt keeps it, if the receipt leads to one.
  abbrev pub Settles : ControlHead → Type 0
  Settles h =
      (ack : UserAckResponse)
      → user_ack_response h.content ≡ ok ack
      → ack.receipt_type ≡ 0x60
      → Deletes (htonl h.to_id) (htonl h.from_id) (htons ack.frame_id)

  abbrev pub Spares : Bytes → Type 0
  Spares [] = Unit {0}
  Spares (b ∷ request) =
      (h : ControlHead)
      → control_head ((b ∷ request) ++ 0 ∷ []) ≡ ok h
      → h.type ≡ Signal.receipte
      → Settles h

module _ (env : Env) (P : env.Db → Type 0) (closed : Closed env P) where
  open env use {server, server.{Db}}

  send_message-Stable :
      (user_id : ℕ) (buf : Bytes) (sates : List SateParam) (level : ℤ)
      → Stable P (send_message env user_id buf sates level)
  unfolding send_message
  send_message-Stable user_id buf sates level = search stable_rules depth 8

  process_login-Stable : (h : ControlHead) → Stable P (process_login env h)
  unfolding process_login
  process_login-Stable h = search (stable_rules, send_message-Stable, closed.cover) depth 16

  process_logout-Stable : (h : ControlHead) → Stable P (process_logout env h)
  unfolding process_logout
  process_logout-Stable h = search (stable_rules, send_message-Stable, closed.cover) depth 16

  process_mobile_request-Stable : (h : ControlHead) → Stable P (process_mobile_request env h)
  unfolding process_mobile_request
  process_mobile_request-Stable h =
      search (stable_rules, send_message-Stable, closed.cover) depth 16

  forward-Stable : (h : ControlHead) (sates : List SateParam) → Stable P (forward env h sates)
  unfolding forward
  forward-Stable h sates = search (stable_rules, send_message-Stable) depth 8

  send_receipt-Stable :
      (h : ControlHead) (sates : List SateParam) → Stable P (send_receipt env h sates)
  unfolding send_receipt
  send_receipt-Stable h sates = search (stable_rules, send_message-Stable) depth 8

  process_simple_message-Stable : (h : ControlHead) → Stable P (process_simple_message env h)
  unfolding process_simple_message relay_simple
  process_simple_message-Stable h =
      search (stable_rules, forward-Stable, closed.store_message) depth 16

  process_complete_message-Stable : (h : ControlHead) → Stable P (process_complete_message env h)
  unfolding process_complete_message answer_complete
  process_complete_message-Stable h =
      search (stable_rules, forward-Stable, send_receipt-Stable, closed.cache_message) depth 16

  settle-Stable :
      (from_id to_id frame_id : ℕ) (msg : MessageItem) (recv_time : ℕ)
      → Deletes env P from_id to_id frame_id
      → Stable P (settle env from_id to_id frame_id msg recv_time)
  unfolding settle
  settle-Stable from_id to_id frame_id msg recv_time deletes =
      search (stable_rules, closed.store_item, deletes) depth 12

  process_acknowledged-Stable :
      (msg : MessageItem) (recv_time : ℕ) (h : ControlHead) (ack : UserAckResponse)
      → Deletes env P (htonl h.to_id) (htonl h.from_id) (htons ack.frame_id)
      → Stable P (process_acknowledged env msg recv_time h ack)
  unfolding process_acknowledged
  process_acknowledged-Stable msg recv_time h ack deletes =
      search (stable_rules, settle-Stable, deletes) depth 16

  process_receipt-Stable :
      (msg : MessageItem) (recv_time : ℕ) (h : ControlHead)
      → Settles env P h
      → Stable P (process_receipt env msg recv_time h)
  unfolding process_receipt run
  process_receipt-Stable msg recv_time h settles = record {
    at = λ w p. elim (Result-cases (user_ack_response h.content)) [
      | inl (ack, e) ↦ rw e (
          (Stable-if_eq (not (ack.receipt_type == 0x60)) _ _ (λ _. Stable-pure tt)
              (λ is.
                process_acknowledged-Stable msg recv_time h ack (settles ack e (ground arith)))).at
            w p)
      | inr (x, e) ↦ rw e tt
    ];
  }

  dispatch-Stable :
      (stack : Uninitialised) (h : ControlHead)
      → (h.type ≡ Signal.receipte → Settles env P h)
      → Stable P (dispatch env stack h.type h)
  unfolding dispatch process_forward_no_ack_message process_backward_no_ack_message
  dispatch-Stable stack h settles = Stable-if _ _ _ (process_login-Stable h) (
      Stable-if _ _ _ (process_logout-Stable h) (
        Stable-if _ _ _ (process_mobile_request-Stable h) (
          Stable-if _ _ _ (process_simple_message-Stable h) (
            Stable-if (h.type == Signal.forward_noack_message) _ _ (Stable-pure tt) (
              Stable-if (h.type == Signal.backward_noack_message) _ _ (Stable-pure tt) (
                Stable-if (h.type == Signal.complete_message) _ _
                  (process_complete_message-Stable h)
                  (Stable-if (h.type == Signal.inquire_message_request) _ _ (Stable-pure tt) (
                    Stable-if_eq (h.type == Signal.receipte) _ _
                      (λ e.
                        process_receipt-Stable (unset_message stack) stack.recv_time h
                          (settles ((==_iff h.type Signal.receipte).0 e)))
                      (λ _. Stable-pure tt)))))))))

  pub access_to_logic-Stable :
      (stack : Uninitialised) (request : Bytes)
      → Spares env P request
      → Stable P (access_to_logic env stack request)
  unfolding access_to_logic run
  access_to_logic-Stable stack [] spares = record { at = λ w p. p }
  access_to_logic-Stable stack (b ∷ request) spares = record {
    at = λ w p. elim (Result-cases (control_head ((b ∷ request) ++ 0 ∷ []))) [
      | inl (h, e) ↦ rw e ((dispatch-Stable stack h (spares h e)).at w p)
      | inr (x, e) ↦ rw e tt
    ];
  }
