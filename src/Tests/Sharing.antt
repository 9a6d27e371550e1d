-- ===== src/Tests/Sharing.antt =====
-- Two threads on one concurrent client, and the replies in the other order.
use short_message.Prelude.{
  ℕ, ◌+◌, ◌≡◌, refl, ◌||◌, Bool, true, false, Option, none, some, [], ◌∷◌, ◌++◌, List, Bytes,
  if◌then◌else◌, ◌==◌, arith,
}
use short_message.Prelude.Int.{ℤ, pos, int_eq}
use short_message.Memory.{text, bytes_eq}
use short_message.Rpc.Concurrent.{
  Header, SyncInfo, returned, threw, turn, take_turn, own_reply, next_header, ended, waits,
}
use short_message.Rpc.Concurrent.Turns.{IsSync, Call, outcome_of}
use short_message.Rpc.Concurrent.System.{
  System, ready, waiting, done, round, Reach, here, next, begins, woken, change,
}
use short_message.Rpc.Service.{
  reply, write_result, read_result, skip_unless, dispatch_call, process_access_to_logic,
  process_logic_to_access, send_access_to_logic, send_logic_to_access, read_request_args,
  read_response_args, response_field, write_request_args, write_response_args,
}
use short_message.Rpc.Concurrent.Served.{
  Request, to_logic, to_access, served, thrown, answered_calls, served-IsRight,
}
use short_message.Machine.{ok}
use short_message.Rpc.Message.{read_access, write_access, access_field}
use short_message.Tests.Calls.{hello, hello-IsFit, counter}
use short_message.Rpc.Wire.{read_struct}
use short_message.Tests.Tags.{tags, tags-IsRoundTrip, tags-IsConsuming}

-- The next number, the pending header, and whether every waiter is woken.
record Numbers : Type 0 where
  next : ℕ
  header : Option Header
  wake_up : Bool

abbrev is_pending : ℤ → Option Header → Bool
is_pending seqid none = false
is_pending seqid (some h) = int_eq seqid h.rseqid

abbrev numbers : SyncInfo
numbers = record {
  State = Numbers;
  generate_seq_id = λ s. (pos (s.next), record s { next = s.next + 1 });
  get_pending = λ s. (s.header, record s { header = none; wake_up = false });
  update_pending = λ h s. some (record s { header = some h });
  wakes = λ seqid s. s.wake_up || is_pending seqid s.header;
  leave = λ c seqid s. record s { wake_up = true };
  sent = λ s. s;
}

updated_law :
    (h : Header) (s s' : Numbers)
    → some (record s { header = some h }) ≡ some s'
    → s'.header ≡ some h
updated_law h s s' e = ground arith

abbrev numbers-IsSync : IsSync numbers
numbers-IsSync = record {
  pending = λ s. s.header;
  taken = λ s. refl;
  cleared = λ s. refl;
  updated = updated_law;
  left = λ c seqid s. refl;
}

pos_numbered : (i j : ℕ) → pos i ≡ pos j → i ≡ j
pos_numbered i j e = ground arith

abbrev order : List ℕ
order = 1 ∷ 0 ∷ []

-- Thread 1 calls LogicToAccess and thread 0 AccessToLogic, and the processor handles them in this
-- order.
abbrev requests : ℕ → Request
requests i = if i == 1 then to_access hello else to_logic (1 ∷ 2 ∷ 3 ∷ [])

abbrev replies : Bytes
replies =
    reply tags (text "LogicToAccess") (text "LogicInterface_LogicToAccess_result") (pos 1)
      (some (text "full"))
    ++ (reply tags (text "AccessToLogic") (text "LogicInterface_AccessToLogic_result") (pos 0) none
        ++ [])

abbrev answered : ℕ → Call
answered =
    answered_calls tags tags-IsRoundTrip tags-IsConsuming refl numbers numbers-IsSync counter
      requests pos (λ i j e. pos_numbered i j e) order 40 45 replies

replied : served tags counter requests pos order 40 ≡ ok (replies, 45)
unfolding dispatch_call process_access_to_logic process_logic_to_access send_access_to_logic
    send_logic_to_access bytes_eq read_request_args read_response_args response_field
    write_request_args write_response_args read_struct read_access write_access access_field
replied = refl

abbrev empty : Numbers
empty = record { next = 2; header = none; wake_up = false }

abbrev all_answered : System tags numbers answered
all_answered = record {
  state = record { next = 2; header = none; wake_up = true };
  input = [];
  phase =
      change (change (change (λ i. ready) 0 waiting) 1 (done (threw (text "full")))) 0
        (done returned);
}

Reach-all_answered :
    Reach tags numbers answered
      (record { state = empty; input = replies; phase = λ i. ready })
      all_answered
unfolding turn take_turn next_header own_reply reply skip_unless read_result write_result
    read_struct bytes_eq thrown
Reach-all_answered =
    next
      (next (next here (round 0 waits _ _ (begins refl) refl))
        (round 1 (ended (threw (text "full"))) _ _ (begins refl) refl))
      (round 0 (ended returned) _ _ (woken refl refl) refl)

served-IsRight_example :
    threw (text "full") ≡ outcome_of (thrown tags counter requests pos order 40 1)
served-IsRight_example =
    served-IsRight tags tags-IsRoundTrip tags-IsConsuming refl numbers numbers-IsSync counter
      requests pos (λ i j e. pos_numbered i j e) order 40 45 replies
      (hello-IsFit, (omega arith, tt)) ((omega arith, tt), (tt, tt)) replied empty all_answered refl
      Reach-all_answered 1 (threw (text "full")) refl
