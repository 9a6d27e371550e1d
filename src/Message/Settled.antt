-- ===== src/Message/Settled.antt =====
-- The two statements by which a receipt settles a cached message.

use short_message.Prelude.{
  ℕ, ◌≡◌, ◌≢◌, ◌<◌, ◌^◌, refl, ◌⊎◌, inl, inr, true, false, some, [], ◌∷◌, ◌++◌, arith, Option-cases,
  ◌==◌,
}
use short_message.Prelude.Int.{ℤ, pos, int32, u32-int32, u16-pos}
use short_message.Memory.{until_nul}
use short_message.Protocol.{MessageItem}
use short_message.Database.Sql.{Server, StoreRow, CacheRow, Statement, insert_store, delete_cache}
use short_message.Database.{attempt, item_of_row, delete_offline_message, insert_store_item}
use short_message.Database.Laws.{IsMySql, without}
use short_message.World.{Env}

-- The row of message_store that a message becomes: `to_id` goes into from_user.
abbrev pub stored_row : ℕ → MessageItem → ℕ → StoreRow
stored_row now msg recv_time = record {
  from_user = int32 msg.to_id;
  to_user = int32 msg.from_id;
  type = pos msg.type;
  text = msg.content;
  recv_time = recv_time;
  send_time = now;
  frame_id = pos msg.frame_id;
}

pub attempt_cases :
    (server : Server) (s : Statement) (db : server.Db)
    → (attempt server s db ≡ (false, db))
      ⊎ ((db' : server.Db) × (server.execute s db ≡ some db') × (attempt server s db ≡ (true, db')))
attempt_cases server s db = elim (Option-cases (server.execute s db)) [
  | inl e ↦ inl (rw (e, attempt))
  | inr (db', e) ↦ inr (db', e, rw (e, attempt))
]

-- The database after the two statements of a receipt.
unfoldable pub settled_db :
    (server : Server) → ℕ → ℕ → ℕ → ℕ → MessageItem → ℕ → server.Db → server.Db
settled_db server now from_id to_id frame_id msg recv_time db =
    (insert_store_item server now msg recv_time
      (delete_offline_message server from_id to_id frame_id db).1).1

-- The columns of a row whose values fit the program's types.
pub stored_row-item :
    (r : CacheRow) (now a b n : ℕ)
    → r.type ≡ pos 0x60
    → a < 2 ^ 32
    → b < 2 ^ 32
    → n < 2 ^ 16
    → r.from_user ≡ int32 a
    → r.to_user ≡ int32 b
    → r.frame_id ≡ pos n
    → stored_row now (item_of_row r) r.recv_time ≡ record {
      from_user = r.to_user;
      to_user = r.from_user;
      type = r.type;
      text = until_nul r.text;
      recv_time = r.recv_time;
      send_time = now;
      frame_id = r.frame_id;
    }
stored_row-item r now a b n type la lb ln ea eb en =
    rw (ea, eb, en, type) (rw (u32-int32 a la, u32-int32 b lb, u16-pos n ln))

pub not-eq : (a b : ℕ) → a ≢ b → (a == b) ≡ false
not-eq a b ne = ground arith

pub attempt_ok :
    (server : Server) (s : Statement) (db db' : server.Db)
    → server.execute s db ≡ some db'
    → attempt server s db ≡ (true, db')
attempt_ok server s db db' e = rw (e, attempt)

module _ (env : Env) (sql : IsMySql env.server) where
  open env use {server}

  -- The cached messages of a key are deleted, or none; and one message is stored, or none.
  pub record Settled (f t n : ℤ) (row : StoreRow) (db db' : server.Db) : Type 0 where
    pub cache_after :
        (sql.cache db' ≡ sql.cache db) ⊎ (sql.cache db' ≡ without f t n (sql.cache db))
    pub store_after : (sql.store db' ≡ sql.store db) ⊎ (sql.store db' ≡ sql.store db ++ row ∷ [])

  pub deleted_lem :
      (f t n : ℤ) (db : server.Db)
      → let d = (attempt server (delete_cache f t n) db).1 in
        ((sql.cache d ≡ sql.cache db) ⊎ (sql.cache d ≡ without f t n (sql.cache db)))
        × (sql.store d ≡ sql.store db)
  deleted_lem f t n db = elim (attempt_cases server (delete_cache f t n) db) [
    | inl e ↦ rw e (inl refl, refl)
    | inr (d, x, e) ↦
        rw e (inr (sql.delete_cache_lem f t n db d x).0, (sql.delete_cache_lem f t n db d x).1)
  ]

  stored_lem :
      (row : StoreRow) (db : server.Db)
      → let d = (attempt server (insert_store row) db).1 in
        (sql.cache d ≡ sql.cache db)
        × ((sql.store d ≡ sql.store db) ⊎ (sql.store d ≡ sql.store db ++ row ∷ []))
  stored_lem row db = elim (attempt_cases server (insert_store row) db) [
    | inl e ↦ rw e (refl, inl refl)
    | inr (d, x, e) ↦
        rw e ((sql.insert_store_lem row db d x).1, inr (sql.insert_store_lem row db d x).0)
  ]

  pub settled_db-Settled :
      (now from_id to_id frame_id : ℕ) (msg : MessageItem) (recv_time : ℕ) (db : server.Db)
      → Settled
          (int32 from_id)
          (int32 to_id)
          (pos frame_id)
          (stored_row now msg recv_time)
          db
          (settled_db server now from_id to_id frame_id msg recv_time db)
  unfolding settled_db insert_store_item delete_offline_message
  settled_db-Settled now from_id to_id frame_id msg recv_time db =
      let (c, s) = deleted_lem (int32 from_id) (int32 to_id) (pos frame_id) db in
      let (c', s') =
        stored_lem (stored_row now msg recv_time)
          (attempt server (delete_cache (int32 from_id) (int32 to_id) (pos frame_id)) db).1 in
      record { cache_after = rw c' c; store_after = rw s at s' }
