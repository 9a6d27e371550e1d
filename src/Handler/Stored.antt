-- ===== src/Handler/Stored.antt =====
-- What stays in message_store while the server handles requests.
use short_message.Prelude.{◌≡◌, ◌∙◌, List, [], ◌∷◌, ◌++◌, Bytes, append_assoc, ℕ, replicate}
use short_message.Prelude.Int.{pos, int32}
use short_message.Machine.{in_bounds}
use short_message.Memory.{c_string}
use short_message.Float.{minus_one}
use short_message.Database.Sql.{StoreRow, update_sate_cover, insert_store, insert_cache}
use short_message.Database.Laws.{IsMySql}
use short_message.Database.Kept.{attempt_lem, attempted_lem}
use short_message.Database.{
  fill_snr, max_beam_num, update_cover, insert_store_message, insert_store_item,
  insert_offline_message, delete_offline_message,
}
use short_message.World.{Env}
use short_message.World.Stable.{Stable}
use short_message.Message.Safety.{cache_row}
use short_message.Message.Simple.{store_row}
use short_message.Message.Settled.{stored_row}
use short_message.Handler.{Uninitialised, access_to_logic}
use short_message.Handler.Invariants.{Closed, Deletes, Spares, access_to_logic-Stable}

module _ (env : Env) (sql : IsMySql env.server) (rows : List StoreRow) where
  open env use {server, server.{Db}}

  -- The table begins with these rows.
  abbrev pub Begins : Db → Type 0
  Begins db = (later : List StoreRow) × (sql.store db ≡ rows ++ later)

  Begins-same : (db e : Db) → sql.store e ≡ sql.store db → Begins db → Begins e
  Begins-same db e same (later, begins) = (later, same ∙ begins)

  Begins-added :
      (db e : Db) (r : StoreRow) → sql.store e ≡ sql.store db ++ r ∷ [] → Begins db → Begins e
  Begins-added db e r added (later, begins) =
      (later ++ r ∷ [], rw (added, begins) (append_assoc rows later (r ∷ [])))

  Begins-Closed : Closed env Begins
  unfolding update_cover insert_store_message insert_offline_message insert_store_item
  Begins-Closed = record {
    cover = λ user_id cover db p.
        attempted_lem server Begins
          (fill_snr cover.sat_cover_num cover.sates_param (replicate max_beam_num minus_one))
          (λ snrs. update_sate_cover snrs user_id) db
          (λ snrs e x. Begins-same db e (sql.update_sate_cover_lem snrs user_id db e x).1 p) p;
    store_message = λ now h db p.
        attempted_lem server Begins (in_bounds (c_string h.content))
          (λ text. insert_store (store_row now h text)) db
          (λ text e x. Begins-added db e _ (sql.insert_store_lem (store_row now h text) db e x).0 p)
          p;
    cache_message = λ now h db p.
        attempted_lem server Begins (in_bounds (c_string h.content))
          (λ text. insert_cache (cache_row now h text)) db
          (λ text e x. Begins-same db e (sql.insert_cache_lem (cache_row now h text) db e x).1 p) p;
    store_item = λ now msg recv_time db p.
        attempt_lem server Begins (insert_store (stored_row now msg recv_time)) db
          (λ e x.
            Begins-added db e _ (sql.insert_store_lem (stored_row now msg recv_time) db e x).0 p)
          p;
  }

  Begins-Deletes : (from_id to_id frame_id : ℕ) → Deletes env Begins from_id to_id frame_id
  unfolding delete_offline_message
  Begins-Deletes from_id to_id frame_id db p =
      attempt_lem server Begins _ db
        (λ e x.
          Begins-same db e
            (sql.delete_cache_lem (int32 from_id) (int32 to_id) (pos frame_id) db e x).1 p)
        p

  Begins-Spares : (request : Bytes) → Spares env Begins request
  Begins-Spares [] = tt
  Begins-Spares (b ∷ request) = λ h parsed type ack found e. Begins-Deletes _ _ _

  pub access_to_logic-Begins :
      (stack : Uninitialised) (request : Bytes) → Stable Begins (access_to_logic env stack request)
  access_to_logic-Begins stack request =
      access_to_logic-Stable env Begins Begins-Closed stack request (Begins-Spares request)
