-- ===== src/Tests/Calls.antt =====
-- The theorems of Rpc at concrete inputs.
use short_message.Prelude.{ℕ, ◌+◌, ◌≡◌, [], ◌∷◌, ◌++◌, none, some, arith, length}
use short_message.Prelude.Int.{pos, negsuc}
use short_message.Machine.{ok}
use short_message.Memory.{text}
use short_message.World.{AccessMessage}
use short_message.Rpc.Message.{IsFit, all_set, new_access_message, read_access, write_access}
use short_message.Rpc.Message.Codec.{read_access-write_access}
use short_message.Rpc.Service.{LogicInterface, send_logic_to_access}
use short_message.Rpc.Service.Call.{Answered, dispatch_call-send_logic_to_access}
use short_message.Tests.Tags.{tags, tags-IsRoundTrip, tags-IsConsuming}

abbrev pub hello : AccessMessage
hello = record {
  uid = pos 7;
  sate_id = pos 2;
  beam_id = pos 3;
  level = negsuc 4;
  content = 104 ∷ 105 ∷ [];
}

pub hello-IsFit : IsFit hello
hello-IsFit = record {
  uid = omega arith;
  sate_id = omega arith;
  beam_id = omega arith;
  level = omega arith;
  content = omega arith;
}

-- Counts the bytes that it is given; LogicToAccess throws.
abbrev pub counter : LogicInterface ℕ
counter = record {
  access_to_logic = λ request n. ok (none, n + length request);
  logic_to_access = λ m n. ok (some (text "full"), n + length m.content);
}

read_access-write_access_example :
    read_access tags new_access_message (write_access tags hello ++ 9 ∷ [])
    ≡ ok (record { message = hello; isset = all_set }, 9 ∷ [])
read_access-write_access_example =
    read_access-write_access tags tags-IsRoundTrip tags-IsConsuming new_access_message hello
      (9 ∷ []) hello-IsFit

dispatch_call-send_logic_to_access_example :
    Answered tags counter
      (text "LogicToAccess")
      (pos 1)
      (send_logic_to_access tags hello)
      40
      (ok (some (text "full"), 42))
dispatch_call-send_logic_to_access_example =
    dispatch_call-send_logic_to_access tags tags-IsRoundTrip tags-IsConsuming counter hello (pos 1)
      40 hello-IsFit
