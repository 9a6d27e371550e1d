-- ===== src/Rpc/Concurrent.antt =====
-- LogicInterfaceConcurrentClient of src/thrift/LogicInterface.cpp: one connection that several threads
-- share. Thrift's TConcurrentClientSyncInfo is a parameter. A thread holds its mutex from the
-- constructor of the sentry, or the return of `waitForWork`, up to the next wait or the end of the call.
pub mod Turns
pub mod System
pub mod Invariant
pub mod Replies
pub mod Served
use short_message.Prelude.{Bool, true, false, not, Option, none, some, ◌++◌, Bytes, if◌then◌else◌}
use short_message.Prelude.Int.{ℤ, int_eq}
use short_message.Memory.{text, bytes_eq}
use short_message.Machine.{Result, ok, ◌>>=◌}
use short_message.World.{AccessMessage}
use short_message.Rpc.Wire.{TProtocol, raised, TMessageType, t_call, t_exception}
use short_message.Rpc.Service.{
  send_access_to_logic, send_logic_to_access, is_reply, skip_unless, read_result,
}

-- The header of a message: fname, mtype and rseqid.
pub record Header : Type 0 where
  pub fname : Bytes
  pub mtype : TMessageType
  pub rseqid : ℤ

-- TConcurrentClientSyncInfo, on its own state; `none` is a thrift exception. `wakes` tells whether
-- `waitForWork` may return, and `leave` is what the destructor of a TConcurrentRecvSentry does, after a
-- commit or without one; `sent` is that of a TConcurrentSendSentry after a commit.
pub record SyncInfo : Type 1 where
  pub State : Type 0
  pub generate_seq_id : State → ℤ × State
  pub get_pending : State → Option Header × State
  pub update_pending : Header → State → Option State
  pub wakes : ℤ → State → Bool
  pub leave : Bool → ℤ → State → State
  pub sent : State → State

-- How `recv_AccessToLogic` and `recv_LogicToAccess` end: they return, they throw the exception that the
-- server has sent, or a TProtocolException.
pub data Outcome : Type 0 where
  returned : Outcome
  threw : Bytes → Outcome
  invalid_data : Outcome

-- A round of the loop ends the call, or goes on to wait.
pub data Turn : Type 0 where
  ended : Outcome → Turn
  waits : Turn

-- `sentry.commit()` is left out before `throw TProtocolException`.
abbrev pub commits : Outcome → Bool
commits invalid_data = false
commits outcome = true

module _ (p : TProtocol) where
  open p use {write_message_begin, read_message_begin, read_message_end, read_exception, skip}

  -- With the header of its own reply: the exception is thrown, any other message is read as a result.
  unfoldable pub own_reply : Bytes → Bytes → TMessageType → Bytes → Result (Outcome × Bytes)
  own_reply name fname t_exception b = do
    (x, b₁) ← raised (read_exception b)
    b₂ ← raised (read_message_end b₁)
    ok (threw x, b₂)
  own_reply name fname type b = do
    b₁ ← skip_unless p (is_reply p type) b
    b₂ ← skip_unless p (bytes_eq fname name) b₁
    if not (bytes_eq fname name)
        then ok (invalid_data, b₂)
        else (do (u, b₃) ← read_result p b₂; b₄ ← raised (read_message_end b₃); ok (returned, b₄))

  -- The pending header, or that of the next message.
  unfoldable pub next_header : Option Header → Bytes → Result (Header × Bytes)
  next_header (some h) b = ok (h, b)
  next_header none b = do
    (fname, type, seqid, rest) ← raised (read_message_begin b)
    ok (record { fname = fname; mtype = type; rseqid = seqid }, rest)

  module _ (sync : SyncInfo) where
    open sync use {State, generate_seq_id, get_pending, update_pending, leave, sent}

    -- `send_AccessToLogic`: the call's number and what is written.
    unfoldable pub send_access_to_logic_as : Bytes → State → ℤ × Bytes × State
    send_access_to_logic_as request s =
        let (cseqid, s₁) = generate_seq_id s in
        (
          cseqid,
          write_message_begin (text "AccessToLogic") t_call cseqid
              ++ send_access_to_logic p request,
          sent s₁,
        )

    unfoldable pub send_logic_to_access_as : AccessMessage → State → ℤ × Bytes × State
    send_logic_to_access_as response s =
        let (cseqid, s₁) = generate_seq_id s in
        (
          cseqid,
          write_message_begin (text "LogicToAccess") t_call cseqid
              ++ send_logic_to_access p response,
          sent s₁,
        )

    -- With a header: the caller's own reply is read, and any other is left pending.
    unfoldable pub take_turn : Bytes → ℤ → Header → State → Bytes → Result (Turn × State × Bytes)
    take_turn name seqid h s b =
        if int_eq seqid h.rseqid
        then (do
          (outcome, rest) ← own_reply name h.fname h.mtype b
          ok (ended outcome, leave (commits outcome) seqid s, rest))
        else (do s' ← raised (update_pending h s); ok (waits, s', b))

    -- One round of the loop of `recv_AccessToLogic` and `recv_LogicToAccess`, which differ in the name.
    unfoldable pub turn : Bytes → ℤ → State → Bytes → Result (Turn × State × Bytes)
    turn name seqid s b =
        let (pending, s₁) = get_pending s in
        do (h, rest) ← next_header pending b; take_turn name seqid h s₁ rest
