-- ===== src/Handler/Relayed.antt =====
-- A simple message from the test client through the server to an access server.
use short_message.Prelude.{
  ℕ, ◌≤◌, ◌<◌, ◌^◌, ◌≡◌, ◌⊎◌, inl, inr, Bool, true, none, List, ◌∷◌, [], ◌++◌, Bytes, length, refl,
  length-append, arith,
}
use short_message.Prelude.Int.{ℤ, int32}
use short_message.Memory.{text, htonl, htons, c_string-append, IsText, htonl-htonl, htons-htons}
use short_message.Machine.{ok}
use short_message.Protocol.{ControlHead}
use short_message.Protocol.Signal
use short_message.Database.Laws.{IsMySql}
use short_message.World.{Env, World, Address, AccessMessage}
use short_message.Message.{process_simple_message}
use short_message.Message.Simple.{IsStored, StoredAndRelayed, process_simple_message_stores}
use short_message.Message.Returns.{process_simple_message-Total}
use short_message.Client.{client_request, request_bytes}
use short_message.Client.Access.{print_response, content_line, print_response-message_encode}
use short_message.Rpc.Wire.{TProtocol, IsRoundTrip, IsConsuming}
use short_message.Rpc.Service.{send_access_to_logic, dispatch_call, recv}
use short_message.Handler.{Uninitialised, dispatch, handler}
use short_message.Client.Order.{control_head-request_bytes, client_request-request_bytes}
use short_message.Handler.Served.{dispatch_call-request}

-- The request of the test client as the server takes it: receiver and sender have changed places.
abbrev pub taken_head : ℕ → ℕ → ℕ → ℕ → ℕ → Bytes → ControlHead
taken_head to_id from_id frame_id type retain content = record {
  from_id = htonl to_id;
  to_id = htonl from_id;
  frame_id = htons frame_id;
  type = type;
  retain = retain;
  content = content ++ 0 ∷ 0 ∷ [];
}

module _ (env : Env) (sql : IsMySql env.server) where
  open env use {server.{Db}}

  -- One message more has been sent, and this is what the access server prints of it: it names the
  -- client's sender as the receiver, and the client's receiver as the sender.
  abbrev pub ShownTo : ℕ → ℕ → ℕ → Bytes → World Db → World Db → Type 0
  ShownTo to_id from_id frame_id content w w' =
      (a : Address) × (m : AccessMessage) × (w'.sent ≡ w.sent ++ (a, m) ∷ [])
      × (print_response m
          ≡ ok (record {
            uid = int32 from_id;
            msg = m.content;
            to_id = from_id;
            from_id = to_id;
            frame_id = frame_id;
            type = Signal.simple_message;
            detail = content_line content;
          }))

  -- Nothing has been sent or stored; or the message is in the store, and has been shown at most once.
  abbrev pub StoredAndShown : ℕ → ℕ → ℕ → ℕ → Bytes → World Db → World Db → Type 0
  StoredAndShown to_id from_id frame_id retain content w w' =
      ((w'.sent ≡ w.sent) × (w'.db ≡ w.db))
      ⊎ (IsStored env sql w.now
            (taken_head to_id from_id frame_id Signal.simple_message retain content) w.db w'.db
          × ((w'.sent ≡ w.sent) ⊎ ShownTo to_id from_id frame_id content w w'))

  shown :
      (to_id from_id frame_id retain : ℕ) (content : Bytes) (w w' : World Db)
      → to_id < 2 ^ 32
      → from_id < 2 ^ 32
      → frame_id < 2 ^ 16
      → IsText content
      → length content ≤ 1011
      → StoredAndRelayed env sql
          (taken_head to_id from_id frame_id Signal.simple_message retain content)
          w
          w'
      → StoredAndShown to_id from_id frame_id retain content w w'
  shown to_id from_id frame_id retain content w w' lt lf ln t le (inl same) = inl same
  shown to_id from_id frame_id retain content w w' lt lf ln t le (inr (stored, inl sent)) =
      inr (stored, inl sent)
  shown to_id from_id frame_id retain content w w' lt lf ln t le
        (inr (stored, inr (str, e, inl sent))) =
      inr (stored, inl sent)
  shown to_id from_id frame_id retain content w w' lt lf ln t le
        (inr (stored, inr (str, e, inr (a, m, sent, uid, buf)))) =
      inr (
        stored,
        inr (
          a,
          m,
          sent,
          rw (htonl-htonl from_id lf, htonl-htonl to_id lt, htons-htons frame_id ln) at
              (print_response-message_encode
                (taken_head to_id from_id frame_id Signal.simple_message retain content) content m
                (int32 (htonl (htonl from_id))) (omega arith) refl
                (c_string-append content (0 ∷ []) t) le (rw buf e) uid),
        ),
      )

  -- A simple message that is handled to its end, with what it has done.
  simple_message_ends :
      (to_id from_id frame_id retain : ℕ) (content : Bytes) (w : World Db) (pool : List Bool)
      → to_id < 2 ^ 32
      → from_id < 2 ^ 32
      → frame_id < 2 ^ 16
      → IsText content
      → length content ≤ 1011
      → w.pool ≡ true ∷ pool
      → (w' : World Db) × (process_simple_message env
            (taken_head to_id from_id frame_id Signal.simple_message retain content)
            w
          ≡ ok (tt, w'))
        × StoredAndShown to_id from_id frame_id retain content w w'
  simple_message_ends to_id from_id frame_id retain content w pool lt lf ln t le free =
      let h = taken_head to_id from_id frame_id Signal.simple_message retain content in
      let (u, w', ends) =
        process_simple_message-Total env h content (c_string-append content (0 ∷ []) t) le w pool
          free in
      (
        w',
        ends,
        shown to_id from_id frame_id retain content w w' lt lf ln t le
            (rw ends at (process_simple_message_stores env sql h w)),
      )

module _ (p : TProtocol) (law : IsRoundTrip p) (consuming : IsConsuming p) (env : Env)
    (sql : IsMySql env.server) (stack : Uninitialised) where
  open env use {server.{Db}}

  -- A simple message from the test client, through the server, to the access server: where its text
  -- has no NUL and at most 1011 bytes, and the pool has a connection, the test client builds the
  -- request, the processor reads the call with it and nothing that follows it, and the client returns without an exception. Either nothing has been sent, and
  -- the database is as it was; or one row with the message has been added to message_store, the cache is as it was, and at most
  -- one message has been sent, of which the test access server prints frame and text as the client
  -- has given them, but the client's sender as the receiver and its receiver as the sender. The ids
  -- and the frame are in the ranges of their C types.
  pub dispatch_call-simple_message :
      (to_id from_id frame_id retain : ℕ) (content : Bytes) (seqid : ℤ) (w : World Db)
      (pool : List Bool) (rest : Bytes)
      → to_id < 2 ^ 32
      → from_id < 2 ^ 32
      → frame_id < 2 ^ 16
      → IsText content
      → length content ≤ 1011
      → w.pool ≡ true ∷ pool
      → (request : Bytes) × (client_request to_id from_id frame_id Signal.simple_message retain
            (content ++ 0 ∷ [])
          ≡ ok request)
        × (answer : Bytes) × (w' : World Db) × (dispatch_call p
              (handler env stack)
              (text "AccessToLogic")
              seqid
              (send_access_to_logic p request ++ rest)
              w
            ≡ ok (answer, w', rest))
        × ((more : Bytes) → recv p (text "AccessToLogic") (answer ++ more) ≡ ok (none, more))
        × StoredAndShown env sql to_id from_id frame_id retain content w w'
  unfolding dispatch request_bytes
  dispatch_call-simple_message to_id from_id frame_id retain content seqid w pool rest lt lf ln t le
        free =
      let (w', ends, done) =
        simple_message_ends env sql to_id from_id frame_id retain content w pool lt lf ln t le
          free in
      let request = request_bytes to_id from_id frame_id Signal.simple_message retain content in
      let built =
        client_request-request_bytes to_id from_id frame_id Signal.simple_message retain content t
          le in
      let (answer, runs, returns) =
        (rw ends at (
            dispatch_call-request p law consuming env stack request
              (taken_head to_id from_id frame_id Signal.simple_message retain content) seqid w
              (control_head-request_bytes to_id from_id frame_id Signal.simple_message retain
                content lt lf ln)
              (omega (arith, length-append content (0 ∷ [])))))
          rest in
      (request, built, answer, w', runs, returns, done)
