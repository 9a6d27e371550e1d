-- ===== src/Rpc/Concurrent/Turns.antt =====
-- One round of a caller of the concurrent client, when the reply to some call is next.
use short_message.Prelude.{
  ◌≡◌, ◌≢◌, ◌⊎◌, inl, inr, Option-cases, refl, Bool, true, false, Option, none, some, ◌++◌, Bytes,
  append_assoc, arith, List, [], ◌∷◌,
}
use short_message.Prelude.Int.{ℤ, int_eq, int_eq_refl}
use short_message.Memory.{bytes_eq_refl}
use short_message.Machine.{ok}
use short_message.Rpc.Wire.{TProtocol, IsRoundTrip, IsConsuming, TMessageType, t_reply, t_exception}
use short_message.Rpc.Service.{reply, write_result, skip_unless}
use short_message.Rpc.Service.Call.{result_lem}
use short_message.Rpc.Concurrent.{
  Header, SyncInfo, Outcome, returned, threw, Turn, ended, waits, commits, own_reply, next_header,
  take_turn, turn,
}

-- What thrift documents of the pending header: a header is pending from `updatePending` to the next
-- `getPending`, and the end of a call leaves it as it is.
pub record IsSync (sync : SyncInfo) : Type 0 where
  pub pending : sync.State → Option Header
  pub taken : (s : sync.State) → (sync.get_pending s).0 ≡ pending s
  pub cleared : (s : sync.State) → pending (sync.get_pending s).1 ≡ none
  pub updated :
      (h : Header) (s s' : sync.State) → sync.update_pending h s ≡ some s' → pending s' ≡ some h
  pub left : (c : Bool) (seqid : ℤ) (s : sync.State) → pending (sync.leave c seqid s) ≡ pending s

-- A call that the server answers: the name and the number of the call, the name of the result's
-- struct, and what the server's method has thrown.
pub record Call : Type 0 where
  pub name : Bytes
  pub struct : Bytes
  pub seqid : ℤ
  pub what : Option Bytes

abbrev pub reply_type : Option Bytes → TMessageType
reply_type none = t_reply
reply_type (some x) = t_exception

abbrev pub header_of : Call → Header
header_of c = record { fname = c.name; mtype = reply_type c.what; rseqid = c.seqid }

-- What the caller is to see.
abbrev pub outcome_of : Option Bytes → Outcome
outcome_of none = returned
outcome_of (some x) = threw x

commits_outcome : (what : Option Bytes) → commits (outcome_of what) ≡ true
commits_outcome none = refl
commits_outcome (some x) = refl

module _ (p : TProtocol) where
  open p use {write_message_begin, write_message_end, write_exception}

  abbrev pub body_of : Bytes → Option Bytes → Bytes
  body_of struct none = write_result p struct ++ write_message_end
  body_of struct (some x) = write_exception x ++ write_message_end

  abbrev pub reply_of : Call → Bytes
  reply_of c = reply p c.name c.struct c.seqid c.what

  -- The replies of the server that have not been begun, in their order.
  abbrev pub stream : List Call → Bytes
  stream [] = []
  stream (c ∷ calls) = reply_of c ++ stream calls

  reply-body :
      (name struct : Bytes) (seqid : ℤ) (what : Option Bytes) (rest : Bytes)
      → reply p name struct seqid what ++ rest
        ≡ write_message_begin name (reply_type what) seqid ++ (body_of struct what ++ rest)
  unfolding reply
  reply-body name struct seqid none rest = simp append_assoc refl
  reply-body name struct seqid (some x) rest = simp append_assoc refl

module _ (p : TProtocol) (law : IsRoundTrip p) (consuming : IsConsuming p) where
  open p use {write_message_end}

  next_header-reply :
      (c : Call) (rest : Bytes)
      → next_header p none (reply_of p c ++ rest)
        ≡ ok (header_of c, body_of p c.struct c.what ++ rest)
  unfolding next_header
  next_header-reply c rest =
      rw
        (
          reply-body p c.name c.struct c.seqid c.what rest,
          law.message_begin c.name (reply_type c.what) c.seqid (body_of p c.struct c.what ++ rest),
        )
        refl

  own_reply-body :
      (name struct : Bytes) (what : Option Bytes) (rest : Bytes)
      → own_reply p name name (reply_type what) (body_of p struct what ++ rest)
        ≡ ok (outcome_of what, rest)
  unfolding own_reply skip_unless
  own_reply-body name struct none rest = simp append_assoc (
      rw
        (
          bytes_eq_refl name,
          result_lem p law consuming struct (write_message_end ++ rest),
          law.message_end rest,
        )
        refl)
  own_reply-body name struct (some x) rest =
      simp append_assoc
        (rw (law.exception x (write_message_end ++ rest), law.message_end rest) refl)

-- The reply to `c` is next: it is not begun, or its header is pending.
module _ (p : TProtocol) (sync : SyncInfo) (thrift : IsSync sync) where
  open thrift use {pending}

  abbrev pub Front : sync.State → Bytes → Call → Bytes → Type 0
  Front s b c rest =
      ((pending s ≡ none) × (b ≡ reply_of p c ++ rest))
      ⊎ ((pending s ≡ some (header_of c)) × (b ≡ body_of p c.struct c.what ++ rest))

module _ (p : TProtocol) (law : IsRoundTrip p) (consuming : IsConsuming p) (sync : SyncInfo)
    (thrift : IsSync sync) where
  open thrift use {pending}

  front_lem :
      (s : sync.State) (b : Bytes) (c : Call) (rest : Bytes)
      → Front p sync thrift s b c rest
      → next_header p (sync.get_pending s).0 b ≡ ok (header_of c, body_of p c.struct c.what ++ rest)
  front_lem s b c rest (inl (e, q)) =
      rw (thrift.taken s, e, q) (next_header-reply p law consuming c rest)
  front_lem s b c rest (inr (e, q)) = rw (thrift.taken s, e, q) (unfold next_header in refl)

  -- The caller whose reply is next reads it whole, and ends as the server has answered it.
  pub turn-own :
      (s : sync.State) (b : Bytes) (c : Call) (rest : Bytes)
      → Front p sync thrift s b c rest
      → turn p sync c.name c.seqid s b
        ≡ ok (ended (outcome_of c.what), sync.leave true c.seqid (sync.get_pending s).1, rest)
  unfolding turn take_turn
  turn-own s b c rest front =
      rw
        (
          front_lem s b c rest front,
          int_eq_refl c.seqid,
          own_reply-body p law consuming c.name c.struct c.what rest,
          commits_outcome c.what,
        )
        refl

  -- Any other caller leaves it pending, and waits.
  pub turn-other :
      (name : Bytes) (seqid : ℤ) (s s' : sync.State) (b b' : Bytes) (t : Turn) (c : Call)
      (rest : Bytes)
      → int_eq seqid c.seqid ≡ false
      → Front p sync thrift s b c rest
      → turn p sync name seqid s b ≡ ok (t, s', b')
      → (t ≡ waits) × (pending s' ≡ some (header_of c)) × (b' ≡ body_of p c.struct c.what ++ rest)
  unfolding turn take_turn
  turn-other name seqid s s' b b' t c rest ne front e =
      let r = rw (front_lem s b c rest front, ne) at e in
      elim (Option-cases (sync.update_pending (header_of c) (sync.get_pending s).1)) [
        | inl x ↦ absurd (let q = rw x at r in ground arith)
        | inr (s₂, x) ↦
            let q = rw x at r in
            let same : s₂ ≡ s' = cc in
            let pends = thrift.updated (header_of c) (sync.get_pending s).1 s₂ x in
            (cc, rw same at pends, cc)
      ]

  -- Without a reply, and without a message, there is no round.
  pub turn-none :
      (name : Bytes) (seqid : ℤ) (s : sync.State) (r : Turn × sync.State × Bytes)
      → p.read_message_begin [] ≡ none
      → pending s ≡ none
      → turn p sync name seqid s [] ≢ ok r
  unfolding turn next_header
  turn-none name seqid s r silent e = rw (thrift.taken s, e, silent) (λ q. ground arith)
