-- ===== src/Message/Safety.antt =====
-- What the handlers of src/logic/message_manager.cpp keep in the database before they answer.
use short_message.Prelude.{
  ℕ, ◌+◌, ◌≡◌, refl, ◌⊎◌, inl, inr, Bool, true, false, none, some, List, [], ◌∷◌, ◌++◌, Bytes,
  Option-cases,
}
use short_message.Prelude.Int.{pos, int32}
use short_message.Machine.{Result, ok, fault}
use short_message.Memory.{htonl, htons, c_string}
use short_message.Protocol.{ControlHead, SateParam}
use short_message.Database.Sql.{Server, NewCacheRow, insert_cache}
use short_message.Database.{attempt, insert_offline_message}
use short_message.Database.Laws.{IsMySql}
use short_message.World.{Env, World, After, run, updated, connect}
use short_message.Send.Sends.{send_message-Frames}
use short_message.World.Frame.{Frames, After-bind, After-map, connect_lem, frame_rules}
use short_message.Message.{forward, send_receipt, answer_complete, process_complete_message}

-- The row that caches a message received at a time.
abbrev pub cache_row : ℕ → ControlHead → Bytes → NewCacheRow
cache_row now h text = record {
  from_user = int32 (htonl h.from_id);
  to_user = int32 (htonl h.to_id);
  type = pos h.type;
  text = text;
  recv_time = now;
  frame_id = pos (htons h.frame_id);
  retry_time = now + 10;
}

module _ (env : Env) where
  forward-Frames : (h : ControlHead) (sates : List SateParam) → Frames (forward env h sates)
  unfolding forward
  forward-Frames h sates = search (frame_rules, send_message-Frames env) depth 8

  send_receipt-Frames :
      (h : ControlHead) (sates : List SateParam) → Frames (send_receipt env h sates)
  unfolding send_receipt
  send_receipt-Frames h sates = search (frame_rules, send_message-Frames env) depth 8

-- The three ways in which `InsertOfflineMessage` ends.
pub data Inserted (server : Server) (now : ℕ) (h : ControlHead) (db : server.Db)
    : Result (Bool × server.Db) → Type 0 where
  cached :
      (text : Bytes) (db' : server.Db)
      → c_string h.content ≡ some text
      → server.execute (insert_cache (cache_row now h text)) db ≡ some db'
      → Inserted server now h db (ok (true, db'))
  refused :
      (text : Bytes)
      → c_string h.content ≡ some text
      → server.execute (insert_cache (cache_row now h text)) db ≡ none
      → Inserted server now h db (ok (false, db))
  faulted : (e : _) → Inserted server now h db (fault e)

pub insert_offline_message-Inserted :
    (server : Server) (now : ℕ) (h : ControlHead) (db : server.Db)
    → Inserted server now h db (insert_offline_message server now h db)
unfolding insert_offline_message
insert_offline_message-Inserted server now h db = elim (Option-cases (c_string h.content)) [
  | inl e ↦ rw e (faulted _)
  | inr (text, e) ↦ elim (Option-cases (server.execute (insert_cache (cache_row now h text)) db)) [
    | inl x ↦ rw (e, x, attempt) (refused text e x)
    | inr (db', x) ↦ rw (e, x, attempt) (cached text db' e x)
  ]
]

module _ (env : Env) (sql : IsMySql env.server) where
  open env use {server}

  -- The message of `h`, received at `now`, is the newest row of the cache, behind all rows of `db`.
  abbrev pub IsCached : ℕ → ControlHead → server.Db → server.Db → Type 0
  IsCached now h db db' =
      (text : Bytes) × (c_string h.content ≡ some text)
      × (sql.cache db'
          ≡ sql.cache db
            ++ record { given = cache_row now h text; retry_num = sql.default_retry } ∷ [])

  -- Nothing has been sent, and the database is as it was, or the message is cached.
  abbrev pub SentOnlyIfCached : ControlHead → World server.Db → World server.Db → Type 0
  SentOnlyIfCached h w w' = ((w'.sent ≡ w.sent) × (w'.db ≡ w.db)) ⊎ IsCached w.now h w.db w'.db

  answer_complete-Frames : (h : ControlHead) → Frames (answer_complete env h true)
  unfolding answer_complete
  answer_complete-Frames h =
      search (frame_rules, send_receipt-Frames env, forward-Frames env) depth 12

  finish_complete :
      (h : ControlHead) (w : World server.Db) (pool : List Bool) (r : Result (Bool × server.Db))
      → Inserted server w.now h w.db r
      → After
          (elim (updated (record w { pool = pool; held = w.held + 1 }) r) [
            | ok (b, w₂) ↦ answer_complete env h b w₂
            | fault e ↦ fault e
          ])
          (λ _ w'. SentOnlyIfCached h w w')
  unfolding updated
  finish_complete h w pool _ (cached text db' e x) =
      After-map _ _ (λ _ w'. SentOnlyIfCached h w w') ((answer_complete-Frames h).at _)
        λ _ w' same. inr (text, e, rw same (sql.insert_cache_lem _ w.db db' x).0)
  finish_complete h w pool _ (refused text e x) = unfold answer_complete run in inl (refl, refl)
  finish_complete h w pool _ (faulted e) = tt

  -- If a complete message (0x60) is answered or forwarded, it has been cached: whenever the handler
  -- ends, either nothing has been sent and the database is as it was, or the message has been added
  -- to the cache, and no cached message has been lost.
  pub process_complete_message_caches :
      (h : ControlHead) (w : World server.Db)
      → After (process_complete_message env h w) (λ _ w'. SentOnlyIfCached h w w')
  unfolding process_complete_message run
  process_complete_message_caches h w =
      After-bind (connect w) _ _ (λ _ w'. SentOnlyIfCached h w w') (connect_lem w)
        λ conn w₁ (c, (pool, e)).
          rw (c, e)
            (finish_complete h w pool _ (insert_offline_message-Inserted server w.now h w.db))
