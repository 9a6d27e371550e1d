-- ===== src/Rpc/Concurrent/Served.antt =====
-- The concurrent client and the server's processor together: the calls of several threads, which the
-- processor of LogicInterface handles one after the other.
use short_message.Prelude.{
  ℕ, ◌≡◌, ◌≢◌, ◌<◌, ◌^◌, inl, inr, refl, sym, false, none, ◌∙◌, Option, List, [], ◌∷◌, ◌++◌, Bytes,
  map, All, length, ◌==◌, if◌then◌else◌, append-nil, arith,
}
use short_message.Prelude.Int.{ℤ}
use short_message.Memory.{text}
use short_message.Machine.{Fault, Result, ok, fault, ◌>>=◌, Result-cases}
use short_message.World.{AccessMessage}
use short_message.Rpc.Wire.{TProtocol, IsRoundTrip, IsConsuming}
use short_message.Rpc.Message.{IsFit}
use short_message.Rpc.Service.{
  LogicInterface, dispatch_call, send_access_to_logic, send_logic_to_access, reply,
}
use short_message.Rpc.Service.Call.{
  access_to_logic_reply, logic_to_access_reply, dispatch_call-send_access_to_logic,
  dispatch_call-send_logic_to_access,
}
use short_message.Rpc.Concurrent.{SyncInfo, Outcome}
use short_message.Rpc.Concurrent.Turns.{IsSync, Call, outcome_of, stream}
use short_message.Rpc.Concurrent.System.{System, done, ready, Reach, Distinct}
use short_message.Rpc.Concurrent.Replies.{Reach-IsRight}

-- What a thread asks for.
pub data Request : Type 0 where
  to_logic : Bytes → Request
  to_access : AccessMessage → Request

abbrev pub IsSound : Request → Type 0
IsSound (to_logic request) = length request < 2 ^ 31
IsSound (to_access response) = IsFit response

abbrev pub name_of : Request → Bytes
name_of (to_logic request) = text "AccessToLogic"
name_of (to_access response) = text "LogicToAccess"

abbrev pub struct_of : Request → Bytes
struct_of (to_logic request) = text "LogicInterface_AccessToLogic_result"
struct_of (to_access response) = text "LogicInterface_LogicToAccess_result"

-- The call with its number, where the server's method throws this.
abbrev pub call_of : Request → ℤ → Option Bytes → Call
call_of r seqid what = record { name = name_of r; struct = struct_of r; seqid = seqid; what = what }

-- What a method throws, and the state that it leaves.
abbrev pub what_of : {S : Type 0} → Result (Option Bytes × S) → Option Bytes
what_of (ok (what, s)) = what
what_of (fault e) = none

abbrev pub left_by : {S : Type 0} → S → Result (Option Bytes × S) → S
left_by s (ok (what, s')) = s'
left_by s (fault e) = s

module _ (p : TProtocol) {S : Type 0} (iface : LogicInterface S) where
  -- What is written behind the header, and the method that it calls.
  abbrev pub written : Request → Bytes
  written (to_logic request) = send_access_to_logic p request
  written (to_access response) = send_logic_to_access p response

  abbrev pub method : Request → S → Result (Option Bytes × S)
  method (to_logic request) = iface.access_to_logic request
  method (to_access response) = iface.logic_to_access response

  module _ (requests : ℕ → Request) (seqid : ℕ → ℤ) where
    -- The processor handles these calls in this order: what it writes, and the state that is left.
    abbrev pub served : List ℕ → S → Result (Bytes × S)
    served [] s = ok ([], s)
    served (k ∷ is) s = do
      (answer, s₁, left) ←
          dispatch_call p iface (name_of (requests k)) (seqid k) (written (requests k)) s
      (more, s₂) ← served is s₁
      ok (answer ++ more, s₂)

    -- What the method throws that a call of the list runs, each on the state that those before it
    -- leave.
    unfoldable pub thrown : List ℕ → S → ℕ → Option Bytes
    thrown [] s i = none
    thrown (k ∷ is) s i =
        let r = method (requests k) s in
        let rest = thrown is (left_by s r) i in if i == k then what_of r else rest

module _ (p : TProtocol) (law : IsRoundTrip p) (consuming : IsConsuming p) {S : Type 0}
    (iface : LogicInterface S) where
  method-reply :
      (r : Request) (seqid : ℤ) (s s' : S) (what : Option Bytes)
      → IsSound r
      → method p iface r s ≡ ok (what, s')
      → dispatch_call p iface (name_of r) seqid (written p iface r) s
        ≡ ok (reply p (name_of r) (struct_of r) seqid what, s', [])
  method-reply (to_logic request) seqid s s' what sound e =
      rw (append-nil (send_access_to_logic p request)) at
        (access_to_logic_reply p law consuming iface request seqid s s' what [] sound e)
  method-reply (to_access m) seqid s s' what sound e =
      rw (append-nil (send_logic_to_access p m)) at
        (logic_to_access_reply p law consuming iface m seqid s s' what [] sound e)

  method_faults :
      (r : Request) (seqid : ℤ) (s : S) (x : Fault)
      → IsSound r
      → method p iface r s ≡ fault x
      → dispatch_call p iface (name_of r) seqid (written p iface r) s ≡ fault x
  method_faults (to_logic request) seqid s x sound e =
      rw (append-nil (send_access_to_logic p request)) at (
        (rw e at (dispatch_call-send_access_to_logic p law consuming iface request seqid s sound))
          [])
  method_faults (to_access m) seqid s x sound e =
      rw (append-nil (send_logic_to_access p m)) at
        ((rw e at (dispatch_call-send_logic_to_access p law consuming iface m seqid s sound)) [])

  module _ (requests : ℕ → Request) (seqid : ℕ → ℤ) where
    -- The calls, where each is to see what its method has thrown.
    abbrev pub calls_of : (ℕ → Option Bytes) → ℕ → Call
    calls_of f i = call_of (requests i) (seqid i) (f i)

    abbrev pub Sound : List ℕ → Type 0
    Sound is = All (λ i. IsSound (requests i)) is

    thrown_first :
        (k : ℕ) (is : List ℕ) (s s' : S) (what : Option Bytes)
        → method p iface (requests k) s ≡ ok (what, s')
        → thrown p iface requests seqid (k ∷ is) s k ≡ what
    unfolding thrown
    thrown_first k is s s' what e = rw e (ground arith)

    thrown_other :
        (k j : ℕ) (is : List ℕ) (s s' : S) (what : Option Bytes)
        → method p iface (requests k) s ≡ ok (what, s')
        → j ≢ k
        → thrown p iface requests seqid (k ∷ is) s j ≡ thrown p iface requests seqid is s' j
    unfolding thrown
    thrown_other k j is s s' what e ne = let n : ((j == k) ≡ false) = ground arith in rw (e, n) refl

    thrown_later :
        (f : ℕ → Option Bytes) (k : ℕ) (is js : List ℕ) (s s' : S) (what : Option Bytes)
        → method p iface (requests k) s ≡ ok (what, s')
        → All (λ j. j ≢ k) js
        → All (λ j. f j ≡ thrown p iface requests seqid (k ∷ is) s j) js
        → All (λ j. f j ≡ thrown p iface requests seqid is s' j) js
    thrown_later f k is [] s s' what e ne h = tt
    thrown_later f k is (j ∷ js) s s' what e (n, ne) (h, hs) =
        (h ∙ thrown_other k j is s s' what e n, thrown_later f k is js s s' what e ne hs)

    -- What the processor has written is the replies to the calls, in their order.
    served-stream :
        (f : ℕ → Option Bytes) (is : List ℕ) (s t : S) (bytes : Bytes)
        → Sound is
        → Distinct is
        → All (λ j. f j ≡ thrown p iface requests seqid is s j) is
        → served p iface requests seqid is s ≡ ok (bytes, t)
        → bytes ≡ stream p (map (calls_of f) is)
    served-stream f [] s t bytes sound distinct h e = ground arith
    served-stream f (k ∷ is) s t bytes (sk, sound) (ne, distinct) (hk, h) e =
        elim (Result-cases (method p iface (requests k) s)) [
          | inl ((what, s'), m) ↦
              let d = method-reply (requests k) (seqid k) s s' what sk m in
              elim (Result-cases (served p iface requests seqid is s')) [
                | inl ((more, u), q) ↦
                    let same = rw (d, q) at e in
                    let tail =
                      served-stream f is s' u more sound distinct
                        (thrown_later f k is is s s' what m ne h) q in
                    let first : f k ≡ what = hk ∙ thrown_first k is s s' what m in
                    let whole : reply p (name_of (requests k)) (struct_of (requests k)) (seqid k)
                            what
                          ++ more
                        ≡ bytes =
                      ground arith in
                    rw (first, sym tail) (sym whole)
                | inr (x, q) ↦ absurd (let same = rw (d, q) at e in ground arith)
              ]
          | inr (x, m) ↦
              absurd
                (let same = rw (method_faults (requests k) (seqid k) s x sk m) at e in ground arith)
        ]

all_same : (f : ℕ → Option Bytes) (is : List ℕ) → All (λ j. f j ≡ f j) is
all_same f [] = tt
all_same f (i ∷ is) = (refl, all_same f is)

module _ (p : TProtocol) (law : IsRoundTrip p) (consuming : IsConsuming p)
    (silent : p.read_message_begin [] ≡ none) (sync : SyncInfo) (thrift : IsSync sync) {S : Type 0}
    (iface : LogicInterface S) (requests : ℕ → Request) (seqid : ℕ → ℤ)
    (numbered : (i j : ℕ) → seqid i ≡ seqid j → i ≡ j) (order : List ℕ) (s u : S)
    (bytes : Bytes) where
  -- The calls of the threads, each to see what the server does with it.
  abbrev pub answered_calls : ℕ → Call
  answered_calls =
      calls_of p law consuming iface requests seqid (thrown p iface requests seqid order s)

  -- Several threads share one connection; each calls one of the two methods, with a number of its
  -- own, and the server's processor handles these calls one after the other, in any order, each once,
  -- and ends without a fault. However the threads take turns with the bytes that it has written, a
  -- call that has ended has returned if the server's method has returned for that thread's request,
  -- on the state that the requests before it have left, and has thrown what the method has thrown
  -- otherwise. The requests' strings have less than 2 ^ 31 bytes, and the numbers of a message are
  -- int32_t values; the protocol reads back what it has written and finds no message where no bytes
  -- are.
  pub served-IsRight :
      All (λ i. IsSound (requests i)) order
      → Distinct order
      → served p iface requests seqid order s ≡ ok (bytes, u)
      → (state : sync.State) (t : System p sync answered_calls) → thrift.pending state ≡ none
      → Reach p sync answered_calls (record { state = state; input = bytes; phase = λ i. ready }) t
      → (i : ℕ) (o : Outcome) → t.phase i ≡ done o
      → o ≡ outcome_of (thrown p iface requests seqid order s i)
  served-IsRight sound distinct e state t held reach =
      let sent =
        served-stream p law consuming iface requests seqid (thrown p iface requests seqid order s)
          order s u bytes sound distinct (all_same (thrown p iface requests seqid order s) order)
          e in
      Reach-IsRight p law consuming silent sync thrift answered_calls numbered order
        (record { state = state; input = bytes; phase = λ i. ready }) t
        (record { nothing_pending = held; replies = sent; all_ready = λ i. refl; once = distinct })
        reach
