-- ===== src/Tests/Serving.antt =====
-- Calls of AccessToLogic at concrete inputs.
use short_message.Prelude.{◌*◌, ◌≡◌, refl, none, Bytes, [], ◌∷◌, ◌++◌, replicate, arith}
use short_message.Prelude.Int.{pos}
use short_message.Machine.{ok}
use short_message.Memory.{text}
use short_message.Protocol.{ControlHead, Satellite, control_head}
use short_message.Protocol.Signal
use short_message.World.{World}
use short_message.Client.{client_request}
use short_message.Mobile.Cover.{read_cover, read_params}
use short_message.Mobile.Login.{LoginDone}
use short_message.Rpc.Service.{send_access_to_logic, dispatch_call, recv}
use short_message.Handler.{Uninitialised, handler}
use short_message.Handler.Served.{dispatch_call-login}
use short_message.Handler.Relayed.{StoredAndShown, dispatch_call-simple_message}
use short_message.Tests.Tables.{Tables, memory-IsMySql, office, world_of, no_tables}
use short_message.Tests.Tags.{tags, tags-IsRoundTrip, tags-IsConsuming}

abbrev stack : Uninitialised
stack = record { to_id = 0; from_id = 0; frame_id = 0; type = 0; retain = 0; recv_time = 0 }

-- A cover with SNR 4.4 on beam 2 of satellite 1.
abbrev content : Bytes
content = replicate 17 0 ++ 1 ∷ 1 ∷ 1 ∷ 2 ∷ 0xcd ∷ 0xcc ∷ 0x8c ∷ 0x40 ∷ []

abbrev cover : Satellite
cover = record {
  grand_cover = 1;
  sat_cover_num = 1;
  sates_param = record { sate_id = pos 1; beam_id = pos 2; snr = 0x408ccccd } ∷ [];
}

abbrev users : Tables
users = record no_tables { users = pos 7 ∷ [] }

-- The login of user 7, frame 1, in network order.
abbrev login : Bytes
login = 0 ∷ 0 ∷ 0 ∷ 7 ∷ 0 ∷ 0 ∷ 0 ∷ 0 ∷ 0 ∷ 1 ∷ Signal.login ∷ 0 ∷ content

abbrev login_head : ControlHead
login_head = record {
  from_id = 7 * 16777216;
  to_id = 0;
  frame_id = 256;
  type = Signal.login;
  retain = 0;
  content = content ++ 0 ∷ [];
}

login_read : control_head (login ++ 0 ∷ []) ≡ ok login_head
unfolding control_head
login_read = refl

cover_found : read_cover login_head.content ≡ ok cover
unfolding read_cover read_params
cover_found = refl

-- User 7 logs in.
dispatch_call-login_example :
    (answer : Bytes) × (w' : World Tables) × (dispatch_call tags
        (handler office stack)
        (text "AccessToLogic")
        (pos 1)
        (send_access_to_logic tags login ++ 5 ∷ [])
        (world_of users)
      ≡ ok (answer, w', 5 ∷ []))
    × ((more : Bytes) → recv tags (text "AccessToLogic") (answer ++ more) ≡ ok (none, more))
    × LoginDone office login_head (world_of users) w' cover
dispatch_call-login_example =
    dispatch_call-login tags tags-IsRoundTrip tags-IsConsuming office stack login login_head (pos 1)
      (world_of users) cover [] (5 ∷ []) login_read refl (omega arith) cover_found refl refl

-- SNR 4.4 on beam 2 is what user 1 has.
abbrev covered : Tables
covered = record users {
  covers = (pos 1, 0 ∷ 0x408ccccd ∷ 0 ∷ 0 ∷ 0 ∷ 0 ∷ 0 ∷ 0 ∷ 0 ∷ 0 ∷ []) ∷ [];
}

-- "bb" for user 2 from user 1: the server relays it to user 1.
dispatch_call-simple_message_example :
    (request : Bytes) × (client_request 2 1 3 Signal.simple_message 0 (98 ∷ 98 ∷ 0 ∷ [])
      ≡ ok request)
    × (answer : Bytes) × (w' : World Tables) × (dispatch_call tags
          (handler office stack)
          (text "AccessToLogic")
          (pos 1)
          (send_access_to_logic tags request ++ 5 ∷ [])
          (world_of covered)
        ≡ ok (answer, w', 5 ∷ []))
    × ((more : Bytes) → recv tags (text "AccessToLogic") (answer ++ more) ≡ ok (none, more))
    × StoredAndShown office memory-IsMySql 2 1 3 0 (98 ∷ 98 ∷ []) (world_of covered) w'
dispatch_call-simple_message_example =
    dispatch_call-simple_message tags tags-IsRoundTrip tags-IsConsuming office memory-IsMySql stack
      2 1 3 0 (98 ∷ 98 ∷ []) (pos 1) (world_of covered) [] (5 ∷ []) (omega arith) (omega arith)
      (omega arith) (omega arith) (omega arith) refl
