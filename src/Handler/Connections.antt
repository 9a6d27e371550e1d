-- ===== src/Handler/Connections.antt =====
-- Which handlers give their database connection back to the pool.
use short_message.Prelude.{
  ◌+◌, ◌≡◌, refl, ◌⊎◌, inl, inr, none, some, true, Bool, arith, ℕ, ◌≢◌, Bytes, List, ◌==◌, ==_iff,
}
use short_message.Prelude.Int.{ℤ}
use short_message.Protocol.{ControlHead, SateParam, MessageItem}
use short_message.Memory.{c_string}
use short_message.Machine.{Result, ok, fault}
use short_message.Database.Sql.{insert_cache}
use short_message.Message.Safety.{
  cache_row, Inserted, cached, refused, faulted, insert_offline_message-Inserted,
}
use short_message.World.Frame.{After-bind, After-map, connect_lem}
use short_message.World.{World, After, run, updated, connect, Env}
use short_message.World.Connections.{
  Closes, Keeps, Keeps-pure, Keeps-if, Keeps-if_eq, connection_rules,
}
use short_message.Protocol.Signal
use short_message.Send.{send_message}
use short_message.Mobile.{process_login, process_logout, process_mobile_request}
use short_message.Message.{
  answer_complete, process_complete_message, forward, send_receipt, settle, process_simple_message,
  relay_simple, process_receipt, process_acknowledged, process_forward_no_ack_message,
  process_backward_no_ack_message,
}
use short_message.Handler.{Uninitialised, unset_message, dispatch}

module _ (env : Env) where
  open env use {server, server.{Db}}

  pub send_message-Keeps :
      (user_id : ℕ) (buf : Bytes) (sates : List SateParam) (level : ℤ)
      → Keeps (send_message env user_id buf sates level)
  unfolding send_message
  send_message-Keeps user_id buf sates level = search connection_rules depth 8

  process_login-Keeps : (h : ControlHead) → Keeps (process_login env h)
  unfolding process_login
  process_login-Keeps h = search (connection_rules, send_message-Keeps) depth 16

  process_logout-Keeps : (h : ControlHead) → Keeps (process_logout env h)
  unfolding process_logout
  process_logout-Keeps h = search (connection_rules, send_message-Keeps) depth 16

  process_mobile_request-Keeps : (h : ControlHead) → Keeps (process_mobile_request env h)
  unfolding process_mobile_request
  process_mobile_request-Keeps h = search (connection_rules, send_message-Keeps) depth 16

  forward-Keeps : (h : ControlHead) (sates : List SateParam) → Keeps (forward env h sates)
  unfolding forward
  forward-Keeps h sates = search (connection_rules, send_message-Keeps) depth 8

  send_receipt-Keeps : (h : ControlHead) (sates : List SateParam) → Keeps (send_receipt env h sates)
  unfolding send_receipt
  send_receipt-Keeps h sates = search (connection_rules, send_message-Keeps) depth 8

  process_simple_message-Keeps : (h : ControlHead) → Keeps (process_simple_message env h)
  unfolding process_simple_message relay_simple
  process_simple_message-Keeps h = search (connection_rules, forward-Keeps) depth 16

  settle-Keeps :
      (from_id to_id frame_id : ℕ) (msg : MessageItem) (recv_time : ℕ)
      → Keeps (settle env from_id to_id frame_id msg recv_time)
  unfolding settle
  settle-Keeps from_id to_id frame_id msg recv_time = search connection_rules depth 10

  process_receipt-Keeps :
      (msg : MessageItem) (recv_time : ℕ) (h : ControlHead)
      → Keeps (process_receipt env msg recv_time h)
  unfolding process_receipt process_acknowledged
  process_receipt-Keeps msg recv_time h = search (connection_rules, settle-Keeps) depth 16

  process_forward_no_ack_message-Keeps :
      (h : ControlHead) → Keeps (process_forward_no_ack_message env h)
  unfolding process_forward_no_ack_message
  process_forward_no_ack_message-Keeps h = Keeps-pure tt

  process_backward_no_ack_message-Keeps :
      (h : ControlHead) → Keeps (process_backward_no_ack_message env h)
  unfolding process_backward_no_ack_message
  process_backward_no_ack_message-Keeps h = Keeps-pure tt

  -- Every request but a complete message (0x60) gives its database connection back.
  pub dispatch-Keeps :
      (stack : Uninitialised) (type : ℕ) (h : ControlHead)
      → type ≢ Signal.complete_message
      → Keeps (dispatch env stack type h)
  unfolding dispatch
  dispatch-Keeps stack type h ne = Keeps-if _ _ _ (process_login-Keeps h) (
      Keeps-if _ _ _ (process_logout-Keeps h) (
        Keeps-if _ _ _ (process_mobile_request-Keeps h) (
          Keeps-if _ _ _ (process_simple_message-Keeps h) (
            Keeps-if _ _ _ (process_forward_no_ack_message-Keeps h) (
              Keeps-if _ _ _ (process_backward_no_ack_message-Keeps h) (
                Keeps-if_eq (type == Signal.complete_message) _ _
                  (λ e. absurd (ne ((==_iff type Signal.complete_message).0 e)))
                  (λ _. Keeps-if _ _ _ (Keeps-pure tt) (
                    Keeps-if _ _ _ (process_receipt-Keeps (unset_message stack) stack.recv_time h)
                      (Keeps-pure tt)))))))))

  answer_complete-Closes : (h : ControlHead) → Closes (answer_complete env h true)
  unfolding answer_complete
  answer_complete-Closes h = search (connection_rules, send_receipt-Keeps, forward-Keeps) depth 16

  -- How many connections are held after a complete message: as many as before where it has been
  -- cached, and one more where the server refuses to cache it.
  abbrev pub Holds : ControlHead → World Db → World Db → Type 0
  Holds h w w' =
      (text : Bytes) × (c_string h.content ≡ some text)
      × (((server.execute (insert_cache (cache_row w.now h text)) w.db ≡ none)
            × (w'.held ≡ w.held + 1)
            × (w'.db ≡ w.db)
            × (w'.sent ≡ w.sent))
          ⊎ ((db' : Db) × (server.execute (insert_cache (cache_row w.now h text)) w.db ≡ some db')
              × (w'.held ≡ w.held)))

  finish-Holds :
      (h : ControlHead) (w : World Db) (pool : List Bool) (r : Result (Bool × Db))
      → Inserted server w.now h w.db r
      → After
          (elim (updated (record w { pool = pool; held = w.held + 1 }) r) [
            | ok (b, w₂) ↦ answer_complete env h b w₂
            | fault e ↦ fault e
          ])
          (λ _ w'. Holds h w w')
  unfolding updated
  finish-Holds h w pool _ (cached text db' e x) =
      After-map _ _ (λ _ w'. Holds h w w') ((answer_complete-Closes h).at _ (omega arith))
        λ _ w' closed. (text, e, inr (db', x, omega arith))
  finish-Holds h w pool _ (refused text e x) =
      unfold answer_complete run in (text, e, inl (x, refl, refl, refl))
  finish-Holds h w pool _ (faulted e) = tt

  -- What a complete message (0x60) does to the connections: if the handler ends, its content has a
  -- NUL, and as many connections are held as before where the server executes the INSERT into
  -- message_cache. Where it refuses the INSERT, nothing is sent, the database is as it was, and one connection more is
  -- held: the handler does not give it back.
  pub process_complete_message-Holds :
      (h : ControlHead) (w : World Db)
      → After (process_complete_message env h w) (λ _ w'. Holds h w w')
  unfolding process_complete_message run
  process_complete_message-Holds h w =
      After-bind (connect w) _ _ (λ _ w'. Holds h w w') (connect_lem w)
        λ conn w₁ (c, (pool, e)).
          rw (c, e) (finish-Holds h w pool _ (insert_offline_message-Inserted server w.now h w.db))
