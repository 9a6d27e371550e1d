-- ===== src/Rpc/Service/Call.antt =====
-- A call from a client's bytes to the handler and back.
use short_message.Prelude.{
  ◌≡◌, inl, inr, true, false, ◌^◌, ◌<◌, Option, none, some, ◌++◌, Bytes, length, arith,
  append_assoc,
}
use short_message.Prelude.Int.{ℤ, pos}
use short_message.Memory.{text, bytes_eq, bytes_eq_refl}
use short_message.Machine.{Result, ok, fault, Result-cases}
use short_message.World.{AccessMessage}
use short_message.Rpc.Wire.{
  t_string, t_struct, TProtocol, IsRoundTrip, IsConsuming, t_reply, t_exception, skipped,
}
use short_message.Rpc.Wire.Fields.{read_struct-one, read_struct-none}
use short_message.Rpc.Message.{IsFit, all_set, write_access, new_access_message}
use short_message.Rpc.Message.Codec.{found_string, read_access-write_access}
use short_message.Rpc.Service.{
  new_request_args, new_response_args, LogicInterface, request_field, read_request_args,
  write_request_args, response_field, read_response_args, write_response_args, read_result,
  write_result, send_access_to_logic, send_logic_to_access, receive, recv, reply, skip_unless,
  process_access_to_logic, process_logic_to_access, dispatch_call, refuse,
}

module _ (p : TProtocol) where
  -- A call as its client sees it, where the method has this outcome: the processor reads the call and
  -- nothing of what follows it, leaves the state that the method has left, and replies so that the
  -- client returns, or throws what the method has thrown. Where the method faults, the processor does.
  abbrev pub Answered :
      {S : Type 0} → LogicInterface S → Bytes → ℤ → Bytes → S → Result (Option Bytes × S) → Type 0
  Answered iface name seqid call s (ok (what, s')) =
      (rest : Bytes)
      → (answer : Bytes) × (dispatch_call p iface name seqid (call ++ rest) s
          ≡ ok (answer, s', rest))
        × ((more : Bytes) → recv p name (answer ++ more) ≡ ok (what, more))
  Answered iface name seqid call s (fault e) =
      (rest : Bytes) → dispatch_call p iface name seqid (call ++ rest) s ≡ fault e

module _ (p : TProtocol) (law : IsRoundTrip p) (consuming : IsConsuming p) where
  open p use {
    write_struct_begin, write_struct_end, write_field_begin, write_field_end, write_field_stop,
    write_string, write_message_end, write_exception,
  }

  request_lem :
      (name : Bytes) (request rest : Bytes)
      → length request < 2 ^ 31
      → read_request_args p new_request_args (write_request_args p name request ++ rest)
        ≡ ok (record { request = request; isset = true }, rest)
  unfolding read_request_args write_request_args
  request_lem name request rest lt =
      read_struct-one p law consuming (request_field p) name (text "request") t_string (pos 1)
        (write_string request) rest new_request_args _ (ground arith)
        (λ more.
          found_string p law consuming (λ s a. record a { request = s; isset = true }) (pos 1)
            request more new_request_args lt)

  response_lem :
      (name : Bytes) (m : AccessMessage) (rest : Bytes)
      → IsFit m
      → read_response_args p new_response_args (write_response_args p name m ++ rest)
        ≡ ok (record { response = record { message = m; isset = all_set }; isset = true }, rest)
  unfolding read_response_args write_response_args response_field
  response_lem name m rest fit =
      read_struct-one p law consuming (response_field p) name (text "response") t_struct (pos 1)
        (write_access p m) rest new_response_args _ (ground arith)
        (λ more. rw (read_access-write_access p law consuming new_access_message m more fit))

  pub result_lem :
      (struct : Bytes) (rest : Bytes)
      → read_result p (write_result p struct ++ rest) ≡ ok (tt, rest)
  unfolding read_result write_result
  result_lem struct rest = read_struct-none p law consuming (skipped p) struct rest tt

  -- What a client throws after the reply of the server is what the server's method has thrown.
  recv-reply :
      (name struct : Bytes) (seqid : ℤ) (what : Option Bytes) (rest : Bytes)
      → recv p name (reply p name struct seqid what ++ rest) ≡ ok (what, rest)
  unfolding recv receive reply skip_unless
  recv-reply name struct seqid none rest = simp append_assoc (
      rw (
        law.message_begin name t_reply seqid (write_result p struct ++ (write_message_end ++ rest)),
        bytes_eq_refl name,
        result_lem struct (write_message_end ++ rest),
        law.message_end rest,
      ))
  recv-reply name struct seqid (some what) rest = simp append_assoc (
      rw (
        law.message_begin name t_exception seqid
            (write_exception what ++ (write_message_end ++ rest)),
        law.exception what (write_message_end ++ rest),
        law.message_end rest,
      ))

  -- The reply to a call of LogicToAccess.
  pub logic_to_access_reply :
      {S : Type 0} (iface : LogicInterface S) (m : AccessMessage) (seqid : ℤ) (s s' : S)
      (what : Option Bytes) (rest : Bytes)
      → IsFit m
      → iface.logic_to_access m s ≡ ok (what, s')
      → dispatch_call p iface (text "LogicToAccess") seqid (send_logic_to_access p m ++ rest) s
        ≡ ok (
          reply p (text "LogicToAccess") (text "LogicInterface_LogicToAccess_result") seqid what,
          s',
          rest,
        )
  unfolding dispatch_call process_logic_to_access send_logic_to_access bytes_eq
  logic_to_access_reply iface m seqid s s' what rest fit e = simp append_assoc (
      rw (
        response_lem (text "LogicInterface_LogicToAccess_pargs") m (write_message_end ++ rest) fit,
        law.message_end rest,
        e,
      ))

  -- A client's call of LogicToAccess runs the server's method once, on the client's message; the
  -- state is what the method leaves, and the client throws exactly what the method has thrown. The
  -- processor faults where the method does. The message's numbers are int32_t values, and its content
  -- has less than 2 ^ 31 bytes.
  pub dispatch_call-send_logic_to_access :
      {S : Type 0} (iface : LogicInterface S) (m : AccessMessage) (seqid : ℤ) (s : S)
      → IsFit m
      → Answered p iface
          (text "LogicToAccess")
          seqid
          (send_logic_to_access p m)
          s
          (iface.logic_to_access m s)
  unfolding dispatch_call process_logic_to_access send_logic_to_access bytes_eq
  dispatch_call-send_logic_to_access iface m seqid s fit =
      elim (Result-cases (iface.logic_to_access m s)) [
        | inl ((what, s'), e) ↦ rw e (λ rest. (
          reply p (text "LogicToAccess") (text "LogicInterface_LogicToAccess_result") seqid what,
          logic_to_access_reply iface m seqid s s' what rest fit e,
          recv-reply (text "LogicToAccess") (text "LogicInterface_LogicToAccess_result") seqid what,
        ))
        | inr (x, e) ↦ rw e (λ rest. simp append_assoc (
            rw (
              response_lem (text "LogicInterface_LogicToAccess_pargs") m (write_message_end ++ rest)
                  fit,
              law.message_end rest,
              e,
            )))
      ]

  -- The reply to a call of AccessToLogic.
  pub access_to_logic_reply :
      {S : Type 0} (iface : LogicInterface S) (request : Bytes) (seqid : ℤ) (s s' : S)
      (what : Option Bytes) (rest : Bytes)
      → length request < 2 ^ 31
      → iface.access_to_logic request s ≡ ok (what, s')
      → dispatch_call p iface
          (text "AccessToLogic")
          seqid
          (send_access_to_logic p request ++ rest)
          s
        ≡ ok (
          reply p (text "AccessToLogic") (text "LogicInterface_AccessToLogic_result") seqid what,
          s',
          rest,
        )
  unfolding dispatch_call process_access_to_logic send_access_to_logic bytes_eq
  access_to_logic_reply iface request seqid s s' what rest fit e = simp append_assoc (
      rw (
        request_lem (text "LogicInterface_AccessToLogic_pargs") request (write_message_end ++ rest)
            fit,
        law.message_end rest,
        e,
      ))

  -- A client's call of AccessToLogic runs the server's method once, on the client's request, and is
  -- answered in the same way. The request has less than 2 ^ 31 bytes.
  pub dispatch_call-send_access_to_logic :
      {S : Type 0} (iface : LogicInterface S) (request : Bytes) (seqid : ℤ) (s : S)
      → length request < 2 ^ 31
      → Answered p iface
          (text "AccessToLogic")
          seqid
          (send_access_to_logic p request)
          s
          (iface.access_to_logic request s)
  unfolding dispatch_call process_access_to_logic send_access_to_logic bytes_eq
  dispatch_call-send_access_to_logic iface request seqid s fit =
      elim (Result-cases (iface.access_to_logic request s)) [
        | inl ((what, s'), e) ↦ rw e (λ rest. (
          reply p (text "AccessToLogic") (text "LogicInterface_AccessToLogic_result") seqid what,
          access_to_logic_reply iface request seqid s s' what rest fit e,
          recv-reply (text "AccessToLogic") (text "LogicInterface_AccessToLogic_result") seqid what,
        ))
        | inr (x, e) ↦ rw e (λ rest. simp append_assoc (
            rw (
              request_lem (text "LogicInterface_AccessToLogic_pargs") request
                  (write_message_end ++ rest) fit,
              law.message_end rest,
              e,
            )))
      ]

  -- A call of any other method runs none: the state stays as it is, and the client throws an
  -- exception that names the method.
  pub dispatch_call-refuses :
      {S : Type 0} (iface : LogicInterface S) (name : Bytes) (seqid : ℤ) (call rest : Bytes) (s : S)
      → (bytes_eq name (text "AccessToLogic")) ≡ false
      → (bytes_eq name (text "LogicToAccess")) ≡ false
      → p.skip t_struct (call ++ rest) ≡ some (write_message_end ++ rest)
      → (answer : Bytes) × (dispatch_call p iface name seqid (call ++ rest) s
          ≡ ok (answer, s, rest))
        × ((more : Bytes)
            → recv p name (answer ++ more)
              ≡ ok (some ((text "Invalid method name: '") ++ name ++ (text "'")), more))
  unfolding dispatch_call refuse reply
  dispatch_call-refuses iface name seqid call rest s na nl skips = (
    reply p name (text "") seqid (some ((text "Invalid method name: '") ++ name ++ (text "'"))),
    rw (na, nl, skips, law.message_end rest),
    recv-reply name (text "") seqid (some ((text "Invalid method name: '") ++ name ++ (text "'"))),
  )
