-- ===== src/Rpc/Service/Interfaces.antt =====
-- src/thrift/LogicInterface.h: the interfaces that thrift generates beside the one that the server
-- implements, the factories, and the classes of arguments and results as values.
use short_message.Prelude.{
  ◌≡◌, refl, Bool, true, false, not, Option, none, some, List, [], ◌∷◌, ◌++◌, Bytes, if◌then◌else◌,
  ◌∙◌,
}
use short_message.Prelude.Int.{ℤ}
use short_message.Memory.{text, bytes_eq}
use short_message.Machine.{Result, ok, fault, out_of_bounds, ◌>>=◌}
use short_message.World.{AccessMessage}
use short_message.Rpc.Wire.{TProtocol}
use short_message.Rpc.Message.Values.{equal}
use short_message.Rpc.Service.{
  RequestArgs, ResponseArgs, LogicInterface, read_result, write_result, call_header,
  send_access_to_logic, send_logic_to_access, recv, dispatch_call,
}

-- `operator ==` of the arguments, which does not look at `__isset`.
unfoldable pub equal_request_args : RequestArgs → RequestArgs → Bool
equal_request_args a b = if not (bytes_eq a.request b.request) then false else true

unfoldable pub differ_request_args : RequestArgs → RequestArgs → Bool
differ_request_args a b = not (equal_request_args a b)

unfoldable pub equal_response_args : ResponseArgs → ResponseArgs → Bool
equal_response_args a b = if not (equal a.response b.response) then false else true

unfoldable pub differ_response_args : ResponseArgs → ResponseArgs → Bool
differ_response_args a b = not (equal_response_args a b)

module _ {S : Type 0} where
  -- LogicInterfaceNull
  abbrev pub null_interface : LogicInterface S
  null_interface = record {
    access_to_logic = λ request s. ok (none, s);
    logic_to_access = λ response s. ok (none, s);
  }

  -- What follows the call of one interface: nothing, if it has thrown.
  abbrev pub unless_thrown :
      (S → Result (Option Bytes × S)) → Option Bytes × S → Result (Option Bytes × S)
  unless_thrown more (some what, s) = ok (some what, s)
  unless_thrown more (none, s) = more s

  -- The loop over `ifaces_`, and the call of the last one. Where there is none, `sz - 1` wraps around,
  -- and `ifaces_[0]` is read.
  unfoldable pub call_each :
      (LogicInterface S → S → Result (Option Bytes × S))
      → List (LogicInterface S)
      → S
      → Result (Option Bytes × S)
  call_each method [] s = fault out_of_bounds
  call_each method (iface ∷ []) s = method iface s
  call_each method (iface ∷ (other ∷ ifaces)) s =
      method iface s >>= unless_thrown (call_each method (other ∷ ifaces))

  -- LogicInterfaceMultiface
  abbrev pub multiface : List (LogicInterface S) → LogicInterface S
  multiface ifaces = record {
    access_to_logic = λ request. call_each (λ iface. iface.access_to_logic request) ifaces;
    logic_to_access = λ response. call_each (λ iface. iface.logic_to_access response) ifaces;
  }

  -- `add`
  abbrev pub add_interface : LogicInterface S → List (LogicInterface S) → List (LogicInterface S)
  add_interface iface ifaces = ifaces ++ iface ∷ []

-- LogicInterfaceIfFactory, for connections described by `C`; releaseHandler, which has no effect in the
-- one factory of the code, is left out.
pub record IfFactory (C S : Type 0) : Type 0 where
  pub get_handler : C → LogicInterface S

-- LogicInterfaceIfSingletonFactory
abbrev pub singleton_factory : {C S : Type 0} → LogicInterface S → IfFactory C S
singleton_factory iface = record { get_handler = λ info. iface }

module _ (p : TProtocol) where
  -- LogicInterfaceProcessorFactory::getProcessor
  abbrev pub get_processor :
      {C S : Type 0} → IfFactory C S → C → Bytes → ℤ → Bytes → S → Result (Bytes × S × Bytes)
  get_processor factory info = dispatch_call p (factory.get_handler info)

  -- The results of the two methods have the same code, on the client's side and on the server's.
  abbrev pub read_access_to_logic_result : Bytes → Result (Unit {0} × Bytes)
  read_access_to_logic_result = read_result p

  abbrev pub read_logic_to_access_result : Bytes → Result (Unit {0} × Bytes)
  read_logic_to_access_result = read_result p

  abbrev pub read_logic_to_access_presult : Bytes → Result (Unit {0} × Bytes)
  read_logic_to_access_presult = read_result p

  abbrev pub write_logic_to_access_result : Bytes
  write_logic_to_access_result = write_result p (text "LogicInterface_LogicToAccess_result")

  -- LogicInterfaceClient::AccessToLogic: what is written, and what comes of the answer.
  abbrev pub client_access_to_logic : Bytes → Bytes → Bytes × Result (Option Bytes × Bytes)
  client_access_to_logic request input = (
    call_header p (text "AccessToLogic") ++ send_access_to_logic p request,
    recv p (text "AccessToLogic") input,
  )

  abbrev pub client_logic_to_access : AccessMessage → Bytes → Bytes × Result (Option Bytes × Bytes)
  client_logic_to_access response input = (
    call_header p (text "LogicToAccess") ++ send_logic_to_access p response,
    recv p (text "LogicToAccess") input,
  )

module _ {S : Type 0} (method : LogicInterface S → S → Result (Option Bytes × S)) where
  same_more :
      (r : Result (Option Bytes × S)) (f g : S → Result (Option Bytes × S))
      → ((s : S) → f s ≡ g s)
      → (r >>= unless_thrown f) ≡ (r >>= unless_thrown g)
  same_more (ok (some what, s)) f g same = refl
  same_more (ok (none, s)) f g same = same s
  same_more (fault e) f g same = refl

  unless_thrown_assoc :
      (r : Result (Option Bytes × S)) (f g : S → Result (Option Bytes × S))
      → (r >>= unless_thrown (λ s. f s >>= unless_thrown g))
        ≡ ((r >>= unless_thrown f) >>= unless_thrown g)
  unless_thrown_assoc (ok (some what, s)) f g = refl
  unless_thrown_assoc (ok (none, s)) f g = refl
  unless_thrown_assoc (fault e) f g = refl

  -- An interface that is added is called last, with the state that the others leave, unless one of
  -- them throws or faults; without others it is the only one.
  pub call_each-add_interface :
      (ifaces : List (LogicInterface S)) (first iface : LogicInterface S) (s : S)
      → (call_each method (add_interface iface []) s ≡ method iface s)
        × (call_each method (add_interface iface (first ∷ ifaces)) s
            ≡ (call_each method (first ∷ ifaces) s >>= unless_thrown (method iface)))
  unfolding call_each
  call_each-add_interface [] first iface s = (refl, refl)
  call_each-add_interface (other ∷ ifaces) first iface s = (
    refl,
    same_more (method first s) _ _ (λ t. (call_each-add_interface ifaces other iface t).1)
        ∙ unless_thrown_assoc (method first s) (call_each method (other ∷ ifaces)) (method iface),
  )
