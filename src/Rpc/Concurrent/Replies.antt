-- ===== src/Rpc/Concurrent/Replies.antt =====
-- Every caller of a concurrent client gets the reply to its own call.
use short_message.Prelude.{ℕ, ◌≡◌, none, List, [], map}
use short_message.Rpc.Wire.{TProtocol, IsRoundTrip, IsConsuming}
use short_message.Rpc.Concurrent.{SyncInfo, Outcome}
use short_message.Rpc.Concurrent.Turns.{IsSync, Call, outcome_of, stream}
use short_message.Rpc.Concurrent.System.{ready, done, System, Reach, Distinct}
use short_message.Rpc.Concurrent.Invariant.{Inv, Reach-Inv, start-Inv}

module _ (p : TProtocol) (sync : SyncInfo) (thrift : IsSync sync) (calls : ℕ → Call) where
  -- No call has been read for yet, and the server's replies come in this order.
  pub record Begins (order : List ℕ) (s : System p sync calls) : Type 0 where
    pub nothing_pending : thrift.pending s.state ≡ none
    pub replies : s.input ≡ stream p (map calls order)
    pub all_ready : (i : ℕ) → s.phase i ≡ ready
    pub once : Distinct order

  -- Every call that has ended has ended as the server has answered it.
  abbrev pub IsRight : System p sync calls → Type 0
  IsRight s = (i : ℕ) (o : Outcome) → s.phase i ≡ done o → o ≡ outcome_of (calls i).what

module _ (p : TProtocol) (law : IsRoundTrip p) (consuming : IsConsuming p)
    (silent : p.read_message_begin [] ≡ none) (sync : SyncInfo) (thrift : IsSync sync)
    (calls : ℕ → Call) (numbered : (i j : ℕ) → (calls i).seqid ≡ (calls j).seqid → i ≡ j)
    (order : List ℕ) (s t : System p sync calls) where
  reached :
      Begins p sync thrift calls order s → Reach p sync calls s t → Inv p sync thrift calls order t
  reached b reach =
      Reach-Inv p law consuming silent sync thrift calls numbered order s t
        (start-Inv p law consuming silent sync thrift calls numbered order s b.nothing_pending
          b.replies b.all_ready b.once)
        reach

  -- Several threads call on one connection, each call with a number of its own, and the server's
  -- replies come in any order, one for each of some calls. However the threads take turns, a call
  -- that has ended has returned if the server has answered it so, and has thrown what the server's
  -- method has thrown otherwise: no thread gets the reply to another's call. This is for a protocol
  -- that reads back what it has written and finds no message where no bytes are.
  pub Reach-IsRight :
      Begins p sync thrift calls order s → Reach p sync calls s t → IsRight p sync thrift calls t
  Reach-IsRight b reach = (reached b reach).right
