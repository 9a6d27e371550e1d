-- ===== src/Handler/Kept.antt =====
-- Which cached messages stay in message_cache while the server handles requests.
use mathlib.Core.List.{mem-append_left}
use short_message.Prelude.{ℕ, ◌≡◌, ◌==◌, ==_iff, ◌&&◌, Bool, false, [], ◌∷◌, ◌++◌, Bytes, arith}
use short_message.Prelude.Int.{pos, int32}
use short_message.Machine.{Result, ok, fault, Yields, in_bounds}
use short_message.Memory.{htonl, htons, c_string}
use short_message.Protocol.{ControlHead, UserAckResponse, user_ack_response, control_head}
use short_message.Protocol.Signal
use short_message.Database.Sql.{CacheRow, insert_store, insert_cache}
use short_message.Database.{insert_store_message, insert_offline_message}
use short_message.Database.Laws.{IsMySql, matches}
use short_message.Database.Kept.{
  letters-append, IsKept, attempted_lem, update_cover-IsKept, insert_store_item-IsKept,
  delete_offline_message-IsKept,
}
use short_message.Handler.Invariants.{Closed, Deletes, Spares, access_to_logic-Stable}
use short_message.World.{Env}
use short_message.World.Stable.{Stable}
use short_message.Message.Safety.{cache_row}
use short_message.Message.Simple.{store_row}
use short_message.Handler.{Uninitialised, access_to_logic}

-- A receipt that acknowledges the message of this row: its type is 0x60, and its receiver, its sender
-- and its frame are the sender, the receiver and the frame of the message.
abbrev pub settles : ControlHead → UserAckResponse → CacheRow → Bool
settles h ack row =
    ack.receipt_type == 0x60
    && matches (int32 (htonl h.to_id)) (int32 (htonl h.from_id)) (pos (htons ack.frame_id)) row

abbrev settles_in : ControlHead → Result UserAckResponse → CacheRow → Bool
settles_in h (ok ack) row = settles h ack row
settles_in h (fault e) row = false

abbrev acknowledges_in : Result ControlHead → CacheRow → Bool
acknowledges_in (ok h) row =
    h.type == Signal.receipte && settles_in h (user_ack_response h.content) row
acknowledges_in (fault e) row = false

-- A request that is such a receipt.
abbrev pub acknowledges : Bytes → CacheRow → Bool
acknowledges [] row = false
acknowledges (b ∷ request) row = acknowledges_in (control_head ((b ∷ request) ++ 0 ∷ [])) row

module _ (env : Env) (sql : IsMySql env.server) (row : CacheRow) where
  open env use {server, server.{Db}}

  abbrev pub Kept : Db → Type 0
  Kept = IsKept server sql row

  insert_store_message-Kept :
      (now : ℕ) (h : ControlHead) (db : Db)
      → Kept db
      → Yields (insert_store_message server now h db) (λ r. Kept r.1)
  unfolding insert_store_message
  insert_store_message-Kept now h db kept =
      attempted_lem server Kept (in_bounds (c_string h.content))
        (λ text. insert_store (store_row now h text)) db
        (λ text e x.
          let (added, c) = sql.insert_store_lem (store_row now h text) db e x in rw c kept)
        kept

  insert_offline_message-Kept :
      (now : ℕ) (h : ControlHead) (db : Db)
      → Kept db
      → Yields (insert_offline_message server now h db) (λ r. Kept r.1)
  unfolding insert_offline_message
  insert_offline_message-Kept now h db kept =
      attempted_lem server Kept (in_bounds (c_string h.content))
        (λ text. insert_cache (cache_row now h text)) db
        (λ text e x.
          let (added, same) = sql.insert_cache_lem (cache_row now h text) db e x in
          rw (added, letters-append (sql.cache db)) (mem-append_left _ kept))
        kept

  Kept-Closed : Closed env Kept
  Kept-Closed = record {
    cover = update_cover-IsKept server sql row;
    store_message = insert_store_message-Kept;
    cache_message = insert_offline_message-Kept;
    store_item = insert_store_item-IsKept server sql row;
  }

  Kept-Deletes :
      (h : ControlHead) (ack : UserAckResponse)
      → ack.receipt_type ≡ 0x60
      → settles h ack row ≡ false
      → Deletes env Kept (htonl h.to_id) (htonl h.from_id) (htons ack.frame_id)
  Kept-Deletes h ack e other =
      delete_offline_message-IsKept server sql row (htonl h.to_id) (htonl h.from_id)
        (htons ack.frame_id) (ground arith)

  Kept-Spares : (request : Bytes) → acknowledges request row ≡ false → Spares env Kept request
  Kept-Spares [] other = tt
  Kept-Spares (b ∷ request) other = λ h parsed type ack found e.
      let receipt : settles_in h (user_ack_response h.content) row ≡ false =
        rw (parsed, (==_iff h.type Signal.receipte).1 type) at other in
      Kept-Deletes h ack e (rw found at receipt)

  pub access_to_logic-Kept :
      (stack : Uninitialised) (request : Bytes)
      → acknowledges request row ≡ false
      → Stable Kept (access_to_logic env stack request)
  access_to_logic-Kept stack request other =
      access_to_logic-Stable env Kept Kept-Closed stack request (Kept-Spares request other)
