-- ===== src/Tests/Returning.antt =====
-- Handlers that return, at concrete inputs.
use short_message.Prelude.{◌≡◌, refl, [], ◌∷◌, some, replicate, ◌++◌, arith}
use short_message.Prelude.Int.{pos}
use short_message.Machine.{ok}
use short_message.Memory.{c_string}
use short_message.Protocol.{ControlHead, Satellite}
use short_message.World.{After, Total}
use short_message.Mobile.{process_mobile_request}
use short_message.Mobile.Changes.{CoverChanged, process_mobile_request_lem}
use short_message.Mobile.Cover.{read_cover, read_params}
use short_message.Message.{process_simple_message, process_complete_message}
use short_message.Message.Simple.{StoredAndRelayed, process_simple_message_stores}
use short_message.Message.Returns.{process_complete_message-Total}
use short_message.Tests.Tables.{Tables, office, memory-IsMySql, world_of, no_tables}

-- User 7, with SNR 4.4 on beam 2 of satellite 1.
abbrev login : ControlHead
login = record {
  from_id = 117440512;
  to_id = 0;
  frame_id = 256;
  type = 0;
  retain = 0;
  content = replicate 17 0 ++ 1 ∷ 1 ∷ 1 ∷ 2 ∷ 0xcd ∷ 0xcc ∷ 0x8c ∷ 0x40 ∷ 0 ∷ [];
}

abbrev cover : Satellite
cover = record {
  grand_cover = 1;
  sat_cover_num = 1;
  sates_param = record { sate_id = pos 1; beam_id = pos 2; snr = 0x408ccccd } ∷ [];
}

abbrev users : Tables
users = record no_tables { users = pos 7 ∷ [] }

login_cover : read_cover login.content ≡ ok cover
unfolding read_cover read_params
login_cover = refl

-- "b" from user 1 to user 2
abbrev message : ControlHead
message = record {
  from_id = 16777216;
  to_id = 33554432;
  frame_id = 768;
  type = 0x60;
  retain = 0;
  content = 98 ∷ 0 ∷ [];
}

message_text : c_string message.content ≡ some (98 ∷ [])
unfolding c_string
message_text = refl

process_complete_message-Total_example :
    Total (process_complete_message office message (world_of users))
process_complete_message-Total_example =
    process_complete_message-Total office message (98 ∷ []) message_text (omega arith)
      (world_of users) [] refl

process_mobile_request_lem_example :
    After (process_mobile_request office login (world_of users)) (λ _ w'.
      (c : Satellite) × (read_cover login.content ≡ ok c)
      × CoverChanged office login (world_of users) w' c)
process_mobile_request_lem_example = process_mobile_request_lem office login (world_of users)

process_simple_message_stores_example :
    After
      (process_simple_message office message (world_of users))
      (λ _ w'. StoredAndRelayed office memory-IsMySql message (world_of users) w')
process_simple_message_stores_example =
    process_simple_message_stores office memory-IsMySql message (world_of users)
