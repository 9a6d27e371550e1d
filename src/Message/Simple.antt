-- ===== src/Message/Simple.antt =====
-- A simple message (0x40) of src/logic/message_manager.cpp is stored, and then relayed.
use short_message.Prelude.{
  ℕ, ◌+◌, ◌-◌, ◌≡◌, refl, ◌⊎◌, inl, inr, Bool, true, false, some, List, [], ◌∷◌, ◌++◌, Bytes,
  Option-cases,
}
use short_message.Prelude.Int.{pos, int32}
use short_message.Machine.{Result, ok, fault, Result-cases}
use short_message.Memory.{htonl, htons, c_string}
use short_message.Protocol.{ControlHead, SateParam}
use short_message.Coder.{message_encode}
use short_message.Database.Sql.{Server, StoreRow, insert_store}
use short_message.Database.{attempt, insert_store_message, get_sate_cover}
use short_message.Database.Laws.{IsMySql}
use short_message.World.{Env, World, After, run, updated, connect}
use short_message.World.Frame.{After-bind, After-map, connect_lem}
use short_message.Send.{send_message}
use short_message.Send.Sends.{SentTo, send_message_lem}
use short_message.Message.{forward, relay_simple, process_simple_message}

-- The row that stores a message received at a time.
abbrev pub store_row : ℕ → ControlHead → Bytes → StoreRow
store_row now h text = record {
  from_user = int32 (htonl h.from_id);
  to_user = int32 (htonl h.to_id);
  type = pos h.type;
  text = text;
  recv_time = now;
  send_time = now;
  frame_id = pos (htons h.frame_id);
}

-- The three ways in which `InsertStoreMessage` ends.
data Inserted (server : Server) (now : ℕ) (h : ControlHead) (db : server.Db)
    : Result (Bool × server.Db) → Type 0 where
  stored :
      (text : Bytes) (db' : server.Db)
      → c_string h.content ≡ some text
      → server.execute (insert_store (store_row now h text)) db ≡ some db'
      → Inserted server now h db (ok (true, db'))
  refused : Inserted server now h db (ok (false, db))
  faulted : (e : _) → Inserted server now h db (fault e)

insert_store_message-Inserted :
    (server : Server) (now : ℕ) (h : ControlHead) (db : server.Db)
    → Inserted server now h db (insert_store_message server now h db)
unfolding insert_store_message
insert_store_message-Inserted server now h db = elim (Option-cases (c_string h.content)) [
  | inl e ↦ rw e (faulted _)
  | inr (text, e) ↦ elim (Option-cases (server.execute (insert_store (store_row now h text)) db)) [
    | inl x ↦ rw (e, x, attempt) refused
    | inr (db', x) ↦ rw (e, x, attempt) (stored text db' e x)
  ]
]

module _ (env : Env) where
  open env use {server}

  -- At most one message has been sent, to the receiver, and it is the encoding of the request.
  abbrev pub Relayed : ControlHead → World server.Db → World server.Db → Type 0
  Relayed h w w' =
      (w'.sent ≡ w.sent)
      ⊎ ((str : Bytes) × (message_encode h ≡ ok str) × SentTo (htonl h.to_id) str w w')

  forward_lem :
      (h : ControlHead) (sates : List SateParam) (w : World server.Db)
      → After (forward env h sates w) (λ _ w'. (w'.db ≡ w.db) × Relayed h w w')
  unfolding forward run
  forward_lem h [] w = (refl, inl refl)
  forward_lem h (s ∷ sates) w = elim (Result-cases (message_encode h)) [
    | inl (str, e) ↦ rw e (
        After-bind (send_message env (htonl h.to_id) str (s ∷ sates) (pos 5) w) _ _ _
          (send_message_lem env (htonl h.to_id) str (s ∷ sates) (pos 5) w)
          λ _ w' (same, to). (same, inr (str, refl, to)))
    | inr (x, e) ↦ rw e tt
  ]

module _ (env : Env) (sql : IsMySql env.server) where
  open env use {server}

  -- The message of `h` is the newest row of the store, and the cache is as it was.
  abbrev pub IsStored : ℕ → ControlHead → server.Db → server.Db → Type 0
  IsStored now h db db' =
      (text : Bytes) × (c_string h.content ≡ some text)
      × (sql.store db' ≡ sql.store db ++ store_row now h text ∷ [])
      × (sql.cache db' ≡ sql.cache db)

  abbrev pub StoredAndRelayed : ControlHead → World server.Db → World server.Db → Type 0
  StoredAndRelayed h w w' =
      ((w'.sent ≡ w.sent) × (w'.db ≡ w.db)) ⊎ (IsStored w.now h w.db w'.db × Relayed env h w w')

  finish_simple :
      (h : ControlHead) (w : World server.Db) (pool : List Bool) (r : Result (Bool × server.Db))
      → Inserted server w.now h w.db r
      → After
          (elim (updated (record w { pool = pool; held = w.held + 1 }) r) [
            | ok (b, w₂) ↦ relay_simple env h b w₂
            | fault e ↦ fault e
          ])
          (λ _ w'. StoredAndRelayed h w w')
  unfolding updated relay_simple run
  finish_simple h w pool _ (stored text db' e x) =
      let law = sql.insert_store_lem (store_row w.now h text) w.db db' x in
      After-map _ _ (λ _ w'. StoredAndRelayed h w w')
        (forward_lem env h (get_sate_cover server (int32 (htonl h.to_id)) db')
          (record w { db = db'; pool = pool; held = w.held + 1 - 1 }))
        λ _ w' (same, relayed). inr ((text, e, rw same (law.0), rw same (law.1)), relayed)
  finish_simple h w pool _ refused = inl (refl, refl)
  finish_simple h w pool _ (faulted e) = tt

  -- A simple message (0x40) is stored before it is relayed: whenever the handler ends, either nothing
  -- has been sent and the database is as it was; or one row with its sender, its receiver, its text up
  -- to the first NUL and its frame has been added to message_store, the cache is as it was, and at
  -- most one message has been sent, to the receiver, with the encoding of the request.
  pub process_simple_message_stores :
      (h : ControlHead) (w : World server.Db)
      → After (process_simple_message env h w) (λ _ w'. StoredAndRelayed h w w')
  unfolding process_simple_message run
  process_simple_message_stores h w =
      After-bind (connect w) _ _ (λ _ w'. StoredAndRelayed h w w') (connect_lem w)
        λ conn w₁ (c, (pool, e)).
          rw (c, e) (finish_simple h w pool _ (insert_store_message-Inserted server w.now h w.db))
