-- ===== src/Tests/Messages.antt =====
-- The message handlers at concrete inputs.
use short_message.Prelude.{◌≡◌, refl, ◌⊎◌, [], ◌∷◌, arith, none, true, false}
use short_message.Prelude.Int.{pos}
use short_message.Machine.{ok}
use short_message.Memory.{c_string}
use short_message.Protocol.{ControlHead, MessageItem, UserAckResponse, user_ack_response}
use short_message.Database.Sql.{Server, CacheRow}
use short_message.Database.{insert_offline_message}
use short_message.Database.Laws.{without}
use short_message.Database.Pool.{get_connection}
use short_message.World.{Env, After}
use short_message.World.Connections.{Keeps}
use short_message.Message.{process_complete_message, process_receipt}
use short_message.Message.Safety.{cache_row, SentOnlyIfCached, process_complete_message_caches}
use short_message.Message.Settled.{stored_row}
use short_message.Message.Receipt.{
  Receipted, process_receipt_settles, process_receipt_moves, process_receipt_stores_garbage,
}
use short_message.Handler.{Uninitialised, dispatch}
use short_message.Handler.Connections.{dispatch-Keeps, Holds, process_complete_message-Holds}
use short_message.Tests.Tables.{Tables, memory, memory-IsMySql, office, world_of, no_tables}

-- A message of user 1 to user 2, frame 3, as it stands in a request.
abbrev message : ControlHead
message = record {
  from_id = 16777216;
  to_id = 33554432;
  frame_id = 768;
  type = 0x60;
  retain = 0;
  content = 98 ∷ 0 ∷ [];
}

-- The receipt of user 2 for it.
abbrev acknowledgement : ControlHead
acknowledgement = record {
  from_id = 33554432;
  to_id = 16777216;
  frame_id = 1024;
  type = 0x80;
  retain = 0;
  content = 0 ∷ 3 ∷ 0x60 ∷ 0 ∷ 0 ∷ [];
}

abbrev ack : UserAckResponse
ack = record { frame_id = 768; receipt_type = 0x60; receipt_indicate = 0 }

parsed_ack : user_ack_response acknowledgement.content ≡ ok ack
unfolding user_ack_response
parsed_ack = refl

abbrev cached : CacheRow
cached = record { given = cache_row 900 message (98 ∷ []); retry_num = pos 0 }

abbrev full : Tables
full = record no_tables { cache = cached ∷ [] }

-- Memory that happens to be zero, and memory that looks like a complete message.
abbrev zeroed : MessageItem
zeroed = record { to_id = 0; from_id = 0; frame_id = 0; type = 0; retain = 0; content = [] }

abbrev stale : MessageItem
stale = record zeroed { type = 0x60 }

taken : get_connection (true ∷ []) ≡ ok (true, [])
unfolding get_connection
taken = refl

process_complete_message_caches_example :
    After
      (process_complete_message office message (world_of no_tables))
      (λ _ w'. SentOnlyIfCached office memory-IsMySql message (world_of no_tables) w')
process_complete_message_caches_example =
    process_complete_message_caches office memory-IsMySql message (world_of no_tables)

process_receipt_settles_example :
    After (process_receipt office zeroed 0 acknowledgement (world_of full)) (λ _ w'.
      (w'.sent ≡ [])
      × ((w'.db ≡ full)
          ⊎ ((ack : UserAckResponse) × (user_ack_response acknowledgement.content ≡ ok ack)
              × Receipted office memory-IsMySql acknowledgement ack (world_of full) w')))
process_receipt_settles_example =
    process_receipt_settles office memory-IsMySql zeroed 0 acknowledgement (world_of full)
      (omega arith)

abbrev settled : Tables
settled = record no_tables {
  store =
      stored_row 1000
        (record zeroed { to_id = 2; from_id = 1; frame_id = 3; type = 0x60; content = 98 ∷ [] }) 900
      ∷ [];
}

process_receipt_moves_example :
    (process_receipt office zeroed 0 acknowledgement (world_of full)
      ≡ ok (tt, record (world_of full) { db = settled; pool = [] }))
    × (settled.cache ≡ [])
    × (settled.store
        ≡ record {
          from_user = pos 2;
          to_user = pos 1;
          type = pos 0x60;
          text = 98 ∷ [];
          recv_time = 900;
          send_time = 1000;
          frame_id = pos 3;
        }
          ∷ [])
unfolding without
process_receipt_moves_example =
    process_receipt_moves office memory-IsMySql zeroed 0 acknowledgement ack (world_of full) []
      parsed_ack refl taken cached [] 1 2 3 no_tables settled refl refl (omega arith) (omega arith)
      (omega arith) refl refl refl refl refl

abbrev garbage : Tables
garbage = record no_tables { store = stored_row 1000 stale 0 ∷ [] }

process_receipt_stores_garbage_example :
    (process_receipt office stale 0 acknowledgement (world_of no_tables)
      ≡ ok (tt, record (world_of no_tables) { db = garbage; pool = [] }))
    × (garbage.store ≡ stored_row 1000 stale 0 ∷ [])
unfolding without
process_receipt_stores_garbage_example =
    process_receipt_stores_garbage office memory-IsMySql stale 0 acknowledgement ack
      (world_of no_tables) [] parsed_ack refl taken garbage refl refl refl

-- A database that refuses every statement.
abbrev read_only : Server
read_only = record memory { execute = λ s t. none }

abbrev read_only_office : Env
read_only_office = record office { server = read_only }

refuses : insert_offline_message read_only 1000 message no_tables ≡ ok (false, no_tables)
unfolding insert_offline_message c_string
refuses = refl

abbrev stack : Uninitialised
stack = record { to_id = 0; from_id = 0; frame_id = 0; type = 0; retain = 0; recv_time = 0 }

dispatch-Keeps_example : Keeps (dispatch office stack 0x80 acknowledgement)
dispatch-Keeps_example = dispatch-Keeps office stack 0x80 acknowledgement (omega arith)

process_complete_message-Holds_example :
    After
      (process_complete_message read_only_office message (world_of no_tables))
      (λ _ w'. Holds read_only_office message (world_of no_tables) w')
process_complete_message-Holds_example =
    process_complete_message-Holds read_only_office message (world_of no_tables)
