-- ===== src/Handler.antt =====
-- src/workmanager/LogicInterfaceHandler.cpp: the dispatch on the request's type. The clock readings
-- that are only logged are left out.
pub mod Connections
pub mod Invariants
pub mod Kept
pub mod Relayed
pub mod Served
pub mod Stored
use short_message.Prelude.{ℕ, ◌==◌, ◌++◌, List, [], ◌∷◌, Bytes, Option, none, if◌then◌else◌}
use short_message.Protocol.{ControlHead, MessageItem, control_head}
use short_message.Protocol.Signal
use short_message.Machine.{Result, ok, fault}
use short_message.World.{Env, World, M, pure, ◌>>=◌, ◌>>◌, lift}
use short_message.Rpc.Service.{LogicInterface}
use short_message.Mobile.{process_login, process_logout, process_mobile_request}
use short_message.Message.{
  process_simple_message, process_forward_no_ack_message, process_backward_no_ack_message,
  process_complete_message, process_receipt,
}

-- The values that the numbers of `msg` and `recv_time` of ProcessReceipt happen to hold before they
-- are set.
pub record Uninitialised : Type 0 where
  pub to_id : ℕ
  pub from_id : ℕ
  pub frame_id : ℕ
  pub type : ℕ
  pub retain : ℕ
  pub recv_time : ℕ

-- `msg` before it is set: its content is a std::string, which begins empty.
abbrev pub unset_message : Uninitialised → MessageItem
unset_message stack = record {
  to_id = stack.to_id;
  from_id = stack.from_id;
  frame_id = stack.frame_id;
  type = stack.type;
  retain = stack.retain;
  content = [];
}

-- What a method of the handler throws, which is nothing, and the server's state after it.
abbrev pub returned : {S : Type 0} → Result (Unit {0} × S) → Result (Option Bytes × S)
returned (ok (u, s)) = ok (none, s)
returned (fault e) = fault e

module _ (env : Env) (stack : Uninitialised) where
  open env use {server.{Db}}

  -- switch (control_head->type)
  unfoldable pub dispatch : ℕ → ControlHead → M Db (Unit {0})
  dispatch type h =
      if type == Signal.login
      then process_login env h
      else if type == Signal.logout
      then process_logout env h
      else if type == Signal.mobile_manager_request
      then process_mobile_request env h
      else if type == Signal.simple_message
      then process_simple_message env h
      else if type == Signal.forward_noack_message
      then process_forward_no_ack_message env h
      else if type == Signal.backward_noack_message
      then process_backward_no_ack_message env h
      else if type == Signal.complete_message
      then process_complete_message env h
      else if type == Signal.inquire_message_request
      then pure tt
      else if type == Signal.receipte
      then process_receipt env (unset_message stack) stack.recv_time h
      else pure tt

  -- `request.c_str()` ends in a NUL.
  unfoldable pub access_to_logic : Bytes → M Db (Unit {0})
  access_to_logic [] = pure tt
  access_to_logic (b ∷ request) = do
    h ← lift (control_head ((b ∷ request) ++ 0 ∷ []))
    dispatch h.type h

  -- LogicInterfaceHandler as the interface of the server's processor: LogicToAccess does nothing.
  abbrev pub handler : LogicInterface (World Db)
  handler = record {
    access_to_logic = λ request w. returned (access_to_logic request w);
    logic_to_access = λ response w. ok (none, w);
  }
