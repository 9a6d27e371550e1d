-- ===== src/Rpc/Service.antt =====
-- src/thrift/LogicInterface.cpp: arguments and results on the wire, the client, and the processor of
-- the server. The processor's event handler is not set by any program of the repository, and the
-- calls on it are left out, as are the flushes of the transport.
pub mod Call
pub mod Ends
pub mod Interfaces
use short_message.Prelude.{
  Bool, true, false, not, Option, none, some, ◌++◌, Bytes, if◌then◌else◌, [], length,
}
use short_message.Prelude.Int.{ℤ, pos, int_eq}
use short_message.Memory.{text, bytes_eq}
use short_message.Machine.{Result, ok, ◌>>=◌}
use short_message.World.{AccessMessage}
use short_message.Rpc.Wire.{
  t_string, t_struct, TType, TMessageType, t_call, t_reply, t_exception, TProtocol, raised, Switch,
  skipped, read_struct,
}
use short_message.Rpc.Message.{
  AccessObject, new_access_message, read_access, write_access, string_field,
}

-- LogicInterface_AccessToLogic_args
pub record RequestArgs : Type 0 where
  pub request : Bytes
  pub isset : Bool

-- LogicInterface_LogicToAccess_args
pub record ResponseArgs : Type 0 where
  pub response : AccessObject
  pub isset : Bool

abbrev pub new_request_args : RequestArgs
new_request_args = record { request = []; isset = false }

abbrev pub new_response_args : ResponseArgs
new_response_args = record { response = new_access_message; isset = false }

-- LogicInterfaceIf, on a state of the server: what a method throws, by its text, and the next state;
-- or the fault that ends the server.
pub record LogicInterface (S : Type 0) : Type 0 where
  pub access_to_logic : Bytes → S → Result (Option Bytes × S)
  pub logic_to_access : AccessMessage → S → Result (Option Bytes × S)

module _ (p : TProtocol) where
  open p use {
    write_struct_begin, write_struct_end, write_field_begin, write_field_end, write_field_stop,
    write_string, write_message_begin, write_message_end, write_exception, read_message_begin,
    read_message_end, read_exception, skip,
  }

  -- The `switch` of LogicInterface_AccessToLogic_args::read
  abbrev pub request_field : Switch RequestArgs
  request_field id type a b =
      if int_eq id (pos 1)
      then string_field p (λ s a. record a { request = s; isset = true }) id type a b
      else skipped p id type a b

  unfoldable pub read_request_args : RequestArgs → Bytes → Result (RequestArgs × Bytes)
  read_request_args a b = read_struct p request_field a b

  unfoldable pub write_request_args : Bytes → Bytes → Bytes
  write_request_args name request =
      write_struct_begin name
      ++ write_field_begin (text "request") t_string (pos 1)
      ++ write_string request
      ++ write_field_end
      ++ write_field_stop
      ++ write_struct_end

  struct_field : Switch ResponseArgs
  struct_field id t_struct a b = do
    (o, rest) ← read_access p a.response b
    ok (record a { response = o; isset = true }, rest)
  struct_field id type a b = skipped p id type a b

  -- The `switch` of LogicInterface_LogicToAccess_args::read
  unfoldable pub response_field : Switch ResponseArgs
  unfolding struct_field
  response_field id type a b =
      if int_eq id (pos 1) then struct_field id type a b else skipped p id type a b

  unfoldable pub read_response_args : ResponseArgs → Bytes → Result (ResponseArgs × Bytes)
  read_response_args a b = read_struct p response_field a b

  unfoldable pub write_response_args : Bytes → AccessMessage → Bytes
  write_response_args name response =
      write_struct_begin name
      ++ write_field_begin (text "response") t_struct (pos 1)
      ++ write_access p response
      ++ write_field_end
      ++ write_field_stop
      ++ write_struct_end

  -- A result has no field of its own: every field is skipped.
  unfoldable pub read_result : Bytes → Result (Unit {0} × Bytes)
  read_result b = read_struct p (skipped p) tt b

  unfoldable pub write_result : Bytes → Bytes
  write_result name = write_struct_begin name ++ write_field_stop ++ write_struct_end

  -- LogicInterfaceClient::send_AccessToLogic, after the header of the message
  unfoldable pub send_access_to_logic : Bytes → Bytes
  send_access_to_logic request =
      write_request_args (text "LogicInterface_AccessToLogic_pargs") request ++ write_message_end

  unfoldable pub send_logic_to_access : AccessMessage → Bytes
  send_logic_to_access response =
      write_response_args (text "LogicInterface_LogicToAccess_pargs") response ++ write_message_end

  -- The header of a call.
  unfoldable pub call_header : Bytes → Bytes
  call_header name = write_message_begin name t_call (pos 0)

  -- What a client does with a message that is not the answer to its call: it skips it, and goes on.
  unfoldable pub skip_unless : Bool → Bytes → Result Bytes
  skip_unless true b = ok b
  skip_unless false b = do b₁ ← raised (skip t_struct b); raised (read_message_end b₁)

  abbrev pub is_reply : TMessageType → Bool
  is_reply t_reply = true
  is_reply type = false

  -- After the header: an exception is thrown on, any other message is read as a result.
  unfoldable pub receive : Bytes → Bytes → TMessageType → Bytes → Result (Option Bytes × Bytes)
  receive name fname t_exception b = do
    (x, b₁) ← raised (read_exception b)
    b₂ ← raised (read_message_end b₁)
    ok (some x, b₂)
  receive name fname type b = do
    b₁ ← skip_unless (is_reply type) b
    b₂ ← skip_unless (bytes_eq fname name) b₁
    (u, b₃) ← read_result b₂
    b₄ ← raised (read_message_end b₃)
    ok (none, b₄)

  -- `recv_AccessToLogic` and `recv_LogicToAccess`, which differ in the name: what is thrown, and
  -- what is left of the bytes.
  unfoldable pub recv : Bytes → Bytes → Result (Option Bytes × Bytes)
  recv name b = do
    (fname, type, seqid, rest) ← raised (read_message_begin b)
    receive name fname type rest

  -- What the server writes after a method: its result, or the exception it has thrown.
  unfoldable pub reply : Bytes → Bytes → ℤ → Option Bytes → Bytes
  reply name struct seqid none =
      write_message_begin name t_reply seqid ++ write_result struct ++ write_message_end
  reply name struct seqid (some what) =
      write_message_begin name t_exception seqid ++ write_exception what ++ write_message_end

  module _ {S : Type 0} (iface : LogicInterface S) where
    -- After the arguments are read: the reply, the state, and the bytes that are left.
    unfoldable pub process_access_to_logic : ℤ → Bytes → S → Result (Bytes × S × Bytes)
    process_access_to_logic seqid b s = do
      (args, b₁) ← read_request_args new_request_args b
      b₂ ← raised (read_message_end b₁)
      (what, s') ← iface.access_to_logic args.request s
      ok (
        reply (text "AccessToLogic") (text "LogicInterface_AccessToLogic_result") seqid what,
        s',
        b₂,
      )

    unfoldable pub process_logic_to_access : ℤ → Bytes → S → Result (Bytes × S × Bytes)
    process_logic_to_access seqid b s = do
      (args, b₁) ← read_response_args new_response_args b
      b₂ ← raised (read_message_end b₁)
      (what, s') ← iface.logic_to_access args.response.message s
      ok (
        reply (text "LogicToAccess") (text "LogicInterface_LogicToAccess_result") seqid what,
        s',
        b₂,
      )

    -- A method that the interface does not have.
    unfoldable pub refuse : Bytes → ℤ → Bytes → S → Result (Bytes × S × Bytes)
    refuse fname seqid b s = do
      b₁ ← raised (skip t_struct b)
      b₂ ← raised (read_message_end b₁)
      ok (
        write_message_begin fname t_exception seqid
            ++ write_exception ((text "Invalid method name: '") ++ fname ++ (text "'"))
            ++ write_message_end,
        s,
        b₂,
      )

    unfoldable pub dispatch_call : Bytes → ℤ → Bytes → S → Result (Bytes × S × Bytes)
    dispatch_call fname seqid b s =
        if bytes_eq fname (text "AccessToLogic")
        then process_access_to_logic seqid b s
        else if bytes_eq fname (text "LogicToAccess")
        then process_logic_to_access seqid b s
        else refuse fname seqid b s
