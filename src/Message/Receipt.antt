-- ===== src/Message/Receipt.antt =====
-- What `ProcessReceipt` of src/logic/message_manager.cpp does to the tables.
use mathlib.Core.Path.{ap₂}
use short_message.Prelude.{
  ℕ, ◌≡◌, ◌≢◌, ◌<◌, ◌^◌, refl, ap, ◌∙◌, ◌⊎◌, inl, inr, Bool, true, false, Option, none, some, List,
  [], ◌∷◌, ◌++◌, arith, Bool-cases, ◌==◌, ==_iff,
}
use short_message.Prelude.Int.{ℤ, pos, int32, u8}
use short_message.Machine.{ok, Result-cases}
use short_message.Memory.{until_nul, htonl, htons}
use short_message.Protocol.{ControlHead, MessageItem, UserAckResponse, user_ack_response}
use short_message.Database.Sql.{CacheRow, insert_store, delete_cache}
use short_message.Database.{
  attempt, item_of_row, get_offline_message, delete_offline_message, insert_store_item,
}
use short_message.Database.Pool.{get_connection}
use short_message.Database.Laws.{IsMySql, without}
use short_message.World.{Env, World, After, run, connect}
use short_message.World.Frame.{After-bind, After-map, connect_lem}
use short_message.Message.{settle, process_acknowledged, process_receipt}
use short_message.Message.Settled.{
  stored_row, settled_db, stored_row-item, not-eq, attempt_ok, Settled, settled_db-Settled,
  deleted_lem,
}

module _ (env : Env) (sql : IsMySql env.server) where
  open env use {server}

  -- What a receipt has done: nothing to the tables, or it has settled the message that the query
  -- for its sender, receiver and frame found, and that is a complete message.
  pub record Receipted (h : ControlHead) (ack : UserAckResponse) (w w' : World server.Db)
      : Type 0 where
    pub row : CacheRow
    pub rows : List CacheRow
    pub acknowledged : ack.receipt_type ≡ 0x60
    pub found :
        server.select_message
          (int32 (htonl h.to_id))
          (int32 (htonl h.from_id))
          (pos (htons ack.frame_id))
          w.db
        ≡ some (row ∷ rows)
    pub complete : u8 row.type ≡ 0x60
    pub settled :
        Settled env sql
          (int32 (htonl h.to_id))
          (int32 (htonl h.from_id))
          (pos (htons ack.frame_id))
          (stored_row w.now (item_of_row row) row.recv_time)
          w.db
          w'.db

  abbrev pub SettlesOnlyFound :
      ControlHead → UserAckResponse → World server.Db → World server.Db → Type 0
  SettlesOnlyFound h ack w w' = (w'.sent ≡ w.sent) × ((w'.db ≡ w.db) ⊎ Receipted h ack w w')

  get_cases :
      (from_id to_id frame_id : ℕ) (msg : MessageItem) (recv_time : ℕ) (db : server.Db)
      → let got = get_offline_message server from_id to_id frame_id msg recv_time db in
        let rows = server.select_message (int32 from_id) (int32 to_id) (pos frame_id) db in
        (got ≡ (false, msg, recv_time))
        ⊎ ((rows ≡ some []) × (got ≡ (true, msg, recv_time)))
        ⊎ ((r : CacheRow) × (rest : List CacheRow) × (rows ≡ some (r ∷ rest))
            × (got ≡ (true, item_of_row r, r.recv_time)))
  unfolding get_offline_message
  get_cases from_id to_id frame_id msg recv_time db =
      go (server.select_message (int32 from_id) (int32 to_id) (pos frame_id) db) refl
    where
      open server use {select_message}

      go :
          (o : Option (List CacheRow))
          → select_message (int32 from_id) (int32 to_id) (pos frame_id) db ≡ o
          → let got = get_offline_message server from_id to_id frame_id msg recv_time db in
            (got ≡ (false, msg, recv_time))
            ⊎ ((o ≡ some []) × (got ≡ (true, msg, recv_time)))
            ⊎ ((r : CacheRow) × (rest : List CacheRow) × (o ≡ some (r ∷ rest))
                × (got ≡ (true, item_of_row r, r.recv_time)))
      go none e = inl (rw (e, get_offline_message))
      go (some []) e = inr (inl (refl, rw (e, get_offline_message)))
      go (some (r ∷ rest)) e = inr (inr (r, rest, refl, rw (e, get_offline_message)))

  settle_found :
      (msg : MessageItem) (recv_time : ℕ) (h : ControlHead) (ack : UserAckResponse)
      (w : World server.Db)
      → msg.type ≢ 0x60
      → ack.receipt_type ≡ 0x60
      → After (process_acknowledged env msg recv_time h ack w) (λ _ w'. SettlesOnlyFound h ack w w')
  unfolding process_acknowledged run settle
  settle_found msg recv_time h ack w junk e =
      After-bind (connect w) _ _ (λ _ w'. SettlesOnlyFound h ack w w') (connect_lem w)
        λ conn w₁ (c, (pool, e₁)).
          rw e₁
            (elim (get_cases (htonl h.to_id) (htonl h.from_id) (htons ack.frame_id) msg recv_time
              w.db) [
                | inl got ↦ rw got (refl, inl refl)
                | inr (inl (q, got)) ↦ rw (got, not-eq msg.type 0x60 junk) (refl, inl refl)
                | inr (inr (r, rest, q, got)) ↦ rw got (elim (Bool-cases (u8 r.type == 0x60)) [
                  | inl complete ↦ rw complete (
                    refl,
                    inr (record {
                      row = r;
                      rows = rest;
                      acknowledged = e;
                      found = q;
                      complete = (==_iff (u8 r.type) 0x60).0 complete;
                      settled =
                          unfold settled_db in
                          settled_db-Settled env sql w.now (htonl h.to_id) (htonl h.from_id)
                            (htons ack.frame_id) (item_of_row r) r.recv_time w.db;
                    }),
                  )
                  | inr other ↦ rw other (refl, inl refl)
                ])
              ])

  -- A receipt (0x80) sends nothing. Where the uninitialised message does not happen to have type
  -- 0x60, the tables change only if the receipt's type is 0x60 and the query for its sender,
  -- receiver and frame finds a row of type 0x60; then at most the rows of that key leave the cache,
  -- and at most that row's message is stored.
  pub process_receipt_settles :
      (msg : MessageItem) (recv_time : ℕ) (h : ControlHead) (w : World server.Db)
      → msg.type ≢ 0x60
      → After (process_receipt env msg recv_time h w) (λ _ w'.
        (w'.sent ≡ w.sent)
        × ((w'.db ≡ w.db)
            ⊎ ((ack : UserAckResponse) × (user_ack_response h.content ≡ ok ack)
                × Receipted h ack w w')))
  unfolding process_receipt run
  process_receipt_settles msg recv_time h w junk =
      elim (Result-cases (user_ack_response h.content)) [
        | inr (f, e) ↦ rw e tt
        | inl (ack, e) ↦ rw e (elim (Bool-cases (ack.receipt_type == 0x60)) [
          | inr other ↦ rw other (refl, inl refl)
          | inl six ↦ rw six (
              After-map (process_acknowledged env msg recv_time h ack w) _ _
                (settle_found msg recv_time h ack w junk ((==_iff ack.receipt_type 0x60).0 six))
                λ _ w' s. (s.0, elim s.1 [ inl same ↦ inl same | inr r ↦ inr (ack, refl, r) ]))
        ])
      ]

module _ (env : Env) (sql : IsMySql env.server) (msg : MessageItem) (recv_time : ℕ)
    (h : ControlHead) (ack : UserAckResponse) (w : World env.Db) (pool : List Bool)
    (parsed : user_ack_response h.content ≡ ok ack) (complete : ack.receipt_type ≡ 0x60)
    (connected : get_connection w.pool ≡ ok (true, pool)) where
  open env use {server}

  abbrev pub key_from : ℤ
  key_from = int32 (htonl h.to_id)

  abbrev pub key_to : ℤ
  key_to = int32 (htonl h.from_id)

  abbrev pub key_frame : ℤ
  key_frame = pos (htons ack.frame_id)

  -- The handler where `GetOfflineMessage` returns true with a complete message.
  receipt_run :
      (m : MessageItem) (time : ℕ)
      → get_offline_message server
          (htonl h.to_id)
          (htonl h.from_id)
          (htons ack.frame_id)
          msg
          recv_time
          w.db
        ≡ (true, m, time)
      → m.type ≡ 0x60
      → process_receipt env msg recv_time h w
        ≡ ok (
          tt,
          record w {
            db =
                settled_db server w.now
                  (htonl h.to_id)
                  (htonl h.from_id)
                  (htons ack.frame_id)
                  m
                  time
                  w.db;
            pool = pool;
          },
        )
  unfolding process_receipt process_acknowledged settle settled_db run
  receipt_run m time got type = ground arith

  -- A receipt of type 0x60 for a cached complete message moves it: where both statements are
  -- executed, the rows of its key leave the cache, and one row is added to message_store. That row
  -- has the receiver in the column from_user and the sender in the column to_user, and the text up to
  -- its first NUL.
  pub process_receipt_moves :
      (r : CacheRow) (rows : List CacheRow) (from_id to_id frame_id : ℕ) (d d' : server.Db)
      → server.select_message key_from key_to key_frame w.db ≡ some (r ∷ rows)
      → r.type ≡ pos 0x60
      → from_id < 2 ^ 32
      → to_id < 2 ^ 32
      → frame_id < 2 ^ 16
      → r.from_user ≡ int32 from_id
      → r.to_user ≡ int32 to_id
      → r.frame_id ≡ pos frame_id
      → server.execute (delete_cache key_from key_to key_frame) w.db ≡ some d
      → server.execute (insert_store (stored_row w.now (item_of_row r) r.recv_time)) d ≡ some d'
      → (process_receipt env msg recv_time h w ≡ ok (tt, record w { db = d'; pool = pool }))
        × (sql.cache d' ≡ without key_from key_to key_frame (sql.cache w.db))
        × (sql.store d'
            ≡ sql.store w.db
              ++ record {
                from_user = r.to_user;
                to_user = r.from_user;
                type = r.type;
                text = until_nul r.text;
                recv_time = r.recv_time;
                send_time = w.now;
                frame_id = r.frame_id;
              }
                ∷ [])
  unfolding settled_db insert_store_item delete_offline_message get_offline_message
  process_receipt_moves r rows from_id to_id frame_id d d' q type lf lt ln ef et en x y =
      let final : settled_db server w.now (htonl h.to_id) (htonl h.from_id) (htons ack.frame_id)
            (item_of_row r) r.recv_time w.db
          ≡ d' =
        ap
          (λ (p : Bool × server.Db).
            (attempt server (insert_store (stored_row w.now (item_of_row r) r.recv_time)) p.1).1)
          (attempt_ok server _ w.db d x)
        ∙ ap (λ (p : Bool × server.Db). p.1) (attempt_ok server _ d d' y) in
      (
        receipt_run (item_of_row r) r.recv_time (rw (q, get_offline_message)) (rw type)
            ∙ ap (λ db'. ok (tt, record w { db = db'; pool = pool })) final,
        (sql.insert_store_lem _ d d' y).1 ∙ (sql.delete_cache_lem _ _ _ w.db d x).0,
        (sql.insert_store_lem _ d d' y).0
            ∙ ap₂ (λ rows' row. rows' ++ row ∷ []) (sql.delete_cache_lem _ _ _ w.db d x).1
                (stored_row-item r w.now from_id to_id frame_id type lf lt ln ef et en),
      )

  -- A receipt for a message that is not cached is not refused: `GetOfflineMessage` returns true and
  -- leaves its caller's message as it was, uninitialised. Where that memory happens to hold type
  -- 0x60, whatever it holds is stored as a message.
  pub process_receipt_stores_garbage :
      (d' : server.Db)
      → server.select_message key_from key_to key_frame w.db ≡ some []
      → msg.type ≡ 0x60
      → server.execute
          (insert_store (stored_row w.now msg recv_time))
          (attempt server (delete_cache key_from key_to key_frame) w.db).1
        ≡ some d'
      → (process_receipt env msg recv_time h w ≡ ok (tt, record w { db = d'; pool = pool }))
        × (sql.store d' ≡ sql.store w.db ++ stored_row w.now msg recv_time ∷ [])
  unfolding settled_db insert_store_item delete_offline_message get_offline_message
  process_receipt_stores_garbage d' q type y = (
    receipt_run msg recv_time (rw (q, get_offline_message)) type
        ∙ ap (λ (p : Bool × server.Db). ok (tt, record w { db = p.1; pool = pool }))
            (attempt_ok server _ _ d' y),
    (sql.insert_store_lem _ _ d' y).0
        ∙ ap (λ rows. rows ++ stored_row w.now msg recv_time ∷ [])
            (deleted_lem env sql key_from key_to key_frame w.db).1,
  )
