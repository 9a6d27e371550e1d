-- ===== src/Tests/Coding.antt =====
-- The coders at concrete inputs.
use short_message.Prelude.{
  ℕ, ◌≤◌, ◌<◌, ◌⊎◌, ◌*◌, ◌≡◌, refl, [], ◌∷◌, ◌++◌, Bytes, arith, replicate, length, some,
}
use short_message.Machine.{ok, fault, out_of_bounds}
use short_message.Memory.{c_string}
use short_message.Protocol.{ControlHead, control_head, Response, MessageItem}
use short_message.Client.{request_bytes}
use short_message.Prelude.Int.{pos}
use short_message.Client.Access.{print_response, receipt_lines, print_response-response_encode}
use short_message.Coder.{message_encode, response_encode}
use short_message.Coder.RoundTrip.{Delivers, head_with, message_encode-Delivers}

-- The request of test/LogicClient, from user 1 to user 2, frame 3: the server takes the ids the
-- other way round.
abbrev pub request : Bytes
request = request_bytes 2 1 3 0x60 0 (98 ∷ 98 ∷ [])

swapped :
    control_head request
    ≡ ok (record {
      from_id = 2 * 16777216;
      to_id = 16777216;
      frame_id = 768;
      type = 0x60;
      retain = 0;
      content = 98 ∷ 98 ∷ 0 ∷ [];
    })
unfolding control_head request_bytes
swapped = refl

abbrev bb : Bytes
bb = 98 ∷ 98 ∷ []

abbrev head_of : Bytes → ControlHead
head_of content = record {
  from_id = 16777216;
  to_id = 33554432;
  frame_id = 768;
  type = 0x60;
  retain = 0;
  content = content;
}

bb_text : c_string (bb ++ 0 ∷ []) ≡ some bb
unfolding c_string
bb_text = refl

long_text : c_string (replicate 1012 98 ++ 0 ∷ []) ≡ some (replicate 1012 98)
unfolding c_string
long_text = refl

message_encode-Delivers_example :
    ((length (replicate {A = ℕ} 1012 98) ≤ 1011)
      × Delivers
          (message_encode (head_of (replicate 1012 98 ++ 0 ∷ [])))
          (head_with (head_of (replicate 1012 98 ++ 0 ∷ [])) (replicate 1012 98 ++ 0 ∷ []))
          (replicate 1012 98))
    ⊎ ((1011 < length (replicate {A = ℕ} 1012 98))
        × (message_encode (head_of (replicate 1012 98 ++ 0 ∷ [])) ≡ fault out_of_bounds))
message_encode-Delivers_example =
    message_encode-Delivers (head_of (replicate 1012 98 ++ 0 ∷ [])) (replicate 1012 98) long_text
      (record { to_fits = omega arith; from_fits = omega arith; frame_fits = omega arith })

abbrev queued : MessageItem
queued = record { to_id = 2; from_id = 1; frame_id = 3; type = 0x60; retain = 0; content = bb }

abbrev receipt : Response
receipt = record {
  to_id = 16777216;
  from_id = 0;
  frame_id = 768;
  type = 0x80;
  retain = 0;
  receipt_type = 0x50;
  receipt_indicate = 0;
}

print_response-response_encode_example :
    (length (response_encode receipt) ≡ 15)
    × (print_response (record {
      uid = pos 1;
      sate_id = pos 1;
      beam_id = pos 2;
      level = pos 10;
      content = response_encode receipt;
    })
        ≡ ok (record {
          uid = pos 1;
          msg = response_encode receipt;
          to_id = 1;
          from_id = 0;
          frame_id = 3;
          type = 0x80;
          detail = receipt_lines 0x50 0;
        }))
print_response-response_encode_example =
    print_response-response_encode receipt (pos 1) (pos 1) (pos 2) (pos 10) (omega arith) refl
