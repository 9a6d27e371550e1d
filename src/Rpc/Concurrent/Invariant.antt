-- ===== src/Rpc/Concurrent/Invariant.antt =====
-- What every run of the callers of a concurrent client keeps.
use short_message.Prelude.{
  ℕ, ◌≡◌, ◌≢◌, inl, inr, refl, true, false, none, some, List, [], ◌∷◌, ◌++◌, Bytes, map, All,
  Bool-cases, ◌==◌, ==_iff, arith, append_assoc, ◌∙◌, sym,
}
use short_message.Prelude.Int.{int_eq, int_eq_iff}
use short_message.Rpc.Wire.{TProtocol, IsRoundTrip, IsConsuming}
use short_message.Rpc.Concurrent.{SyncInfo, Outcome, ended}
use short_message.Rpc.Concurrent.Turns.{
  IsSync, Call, header_of, body_of, outcome_of, stream, Front, turn-own, turn-other, turn-none,
}
use short_message.Rpc.Concurrent.System.{
  Phase, ready, waiting, done, phase_after, is_done, change, change-other, change-same, System,
  CanRun-Undone, Step, round, Reach, here, next, Answered, Undone, Distinct,
}

module _ (p : TProtocol) (sync : SyncInfo) (thrift : IsSync sync) (calls : ℕ → Call) where
  open thrift use {pending}

  -- The replies to these calls are what the server still sends; that to the first may be pending.
  abbrev pub Sends : sync.State → Bytes → List ℕ → Type 0
  Sends state input [] = (pending state ≡ none) × (input ≡ [])
  Sends state input (k ∷ is) = Front p sync thrift state input (calls k) (stream p (map calls is))

  pub record Inv (order : List ℕ) (s : System p sync calls) : Type 0 where
    pub taken : List ℕ
    pub remaining : List ℕ
    pub parts : order ≡ taken ++ remaining
    pub answered : All (Answered p sync calls s) taken
    pub undone : All (Undone p sync calls s) remaining
    pub distinct : Distinct remaining
    pub sends : Sends s.state s.input remaining
    pub right : (i : ℕ) (o : Outcome) → s.phase i ≡ done o → o ≡ outcome_of (calls i).what

  All-change :
      (s : System p sync calls) (i : ℕ) (q : Phase) (is : List ℕ)
      → Undone p sync calls s i
      → All (Answered p sync calls s) is
      → All (λ j. change s.phase i q j ≡ done (outcome_of (calls j).what)) is
  All-change s i q [] u h = tt
  All-change s i q (j ∷ is) u (a, h) = (
    rw (change-other s.phase i j q (λ e. let b = rw e at a in ground arith)) a,
    All-change s i q is u h,
  )

  All-Undone :
      (s : System p sync calls) (i : ℕ) (q : Phase) (is : List ℕ)
      → All (λ j. j ≢ i) is
      → All (Undone p sync calls s) is
      → All (λ j. is_done (change s.phase i q j) ≡ false) is
  All-Undone s i q [] ne h = tt
  All-Undone s i q (j ∷ is) (n, ne) (u, h) =
      (rw (change-other s.phase i j q n) u, All-Undone s i q is ne h)

  -- A caller that goes on to wait.
  All-waits :
      (s : System p sync calls) (i : ℕ) (is : List ℕ)
      → All (Undone p sync calls s) is
      → All (λ j. is_done (change s.phase i waiting j) ≡ false) is
  All-waits s i [] h = tt
  All-waits s i (j ∷ is) (u, h) = (ground arith, All-waits s i is h)

  All-append : (P : ℕ → Type 0) (is : List ℕ) (k : ℕ) → All P is → P k → All P (is ++ k ∷ [])
  All-append P [] k h e = (e, tt)
  All-append P (j ∷ is) k (a, h) e = (a, All-append P is k h e)

  Sends-stream :
      (state : sync.State) (is : List ℕ)
      → pending state ≡ none
      → Sends state (stream p (map calls is)) is
  Sends-stream state [] e = (e, refl)
  Sends-stream state (k ∷ is) e = inl (e, refl)

  right-change :
      (s : System p sync calls) (i : ℕ) (q : Phase)
      → ((o : Outcome) → q ≡ done o → o ≡ outcome_of (calls i).what)
      → ((j : ℕ) (o : Outcome) → s.phase j ≡ done o → o ≡ outcome_of (calls j).what)
      → (j : ℕ) (o : Outcome) → change s.phase i q j ≡ done o
      → o ≡ outcome_of (calls j).what
  right-change s i q h right j o e = elim (Bool-cases (j == i)) [
    | inl same ↦ let ji = (==_iff j i).0 same in rw ji (h o (rw same at e))
    | inr other ↦ right j o (rw other at e)
  ]

module _ (p : TProtocol) (law : IsRoundTrip p) (consuming : IsConsuming p)
    (silent : p.read_message_begin [] ≡ none) (sync : SyncInfo) (thrift : IsSync sync)
    (calls : ℕ → Call) (numbered : (i j : ℕ) → (calls i).seqid ≡ (calls j).seqid → i ≡ j)
    (order : List ℕ) where
  open thrift use {pending}

  -- The caller whose reply is next has read it.
  own-Inv :
      (s : System p sync calls) (taken is : List ℕ) (k : ℕ)
      → order ≡ taken ++ k ∷ is
      → All (Answered p sync calls s) taken
      → All (Undone p sync calls s) (k ∷ is)
      → Distinct (k ∷ is)
      → ((i : ℕ) (o : Outcome) → s.phase i ≡ done o → o ≡ outcome_of (calls i).what)
      → Inv p sync thrift calls order (record {
        state = sync.leave true (calls k).seqid (sync.get_pending s.state).1;
        input = stream p (map calls is);
        phase = change s.phase k (done (outcome_of (calls k).what));
      })
  own-Inv s taken is k parts answered (u, undone) (ne, distinct) right =
      let none_left =
        thrift.left true (calls k).seqid (sync.get_pending s.state).1 ∙ thrift.cleared s.state in
      record {
        taken = taken ++ k ∷ [];
        remaining = is;
        parts = parts ∙ sym (append_assoc taken (k ∷ []) is);
        answered =
            All-append p sync thrift calls _ taken k
              (All-change p sync thrift calls s k _ taken u answered) (change-same s.phase k _);
        undone = All-Undone p sync thrift calls s k _ is ne undone;
        distinct = distinct;
        sends = Sends-stream p sync thrift calls _ is none_left;
        right = right-change p sync thrift calls s k _ (λ o e. cc) right;
      }

  -- Another caller has left it pending.
  other-Inv :
      (s : System p sync calls) (taken is : List ℕ) (k i : ℕ) (state : sync.State)
      → order ≡ taken ++ k ∷ is
      → All (Answered p sync calls s) taken
      → All (Undone p sync calls s) (k ∷ is)
      → Distinct (k ∷ is)
      → ((i : ℕ) (o : Outcome) → s.phase i ≡ done o → o ≡ outcome_of (calls i).what)
      → Undone p sync calls s i
      → pending state ≡ some (header_of (calls k))
      → Inv p sync thrift calls order (record {
        state = state;
        input = body_of p (calls k).struct (calls k).what ++ stream p (map calls is);
        phase = change s.phase i waiting;
      })
  other-Inv s taken is k i state parts answered undone distinct right u held = record {
    taken = taken;
    remaining = k ∷ is;
    parts = parts;
    answered = All-change p sync thrift calls s i _ taken u answered;
    undone = All-waits p sync thrift calls s i (k ∷ is) undone;
    distinct = distinct;
    sends = inr (held, refl);
    right = right-change p sync thrift calls s i _ (λ o e. absurd (ground arith)) right;
  }

  Step-Inv :
      (s t : System p sync calls)
      → Step p sync calls s t
      → Inv p sync thrift calls order s
      → Inv p sync thrift calls order t
  Step-Inv s _ (round i t state input can e) v = go v.remaining v.parts v.undone v.distinct v.sends
    where
      go :
          (is : List ℕ)
          → order ≡ v.taken ++ is
          → All (Undone p sync calls s) is
          → Distinct is
          → Sends p sync thrift calls s.state s.input is
          → Inv p sync thrift calls order
              (record { state = state; input = input; phase = change s.phase i (phase_after t) })
      go [] parts undone distinct (held, empty) = absurd (
          turn-none p law consuming sync thrift (calls i).name (calls i).seqid s.state _ silent held
            (rw empty at e))
      go (k ∷ is) parts undone distinct front =
          elim (Bool-cases (int_eq (calls i).seqid (calls k).seqid)) [
            | inl same ↦
                let ik = numbered i k ((int_eq_iff _ _).0 same) in
                let own =
                  turn-own p law consuming sync thrift s.state s.input (calls k)
                    (stream p (map calls is)) front in
                let e' = rw ik at e in
                let r = rw own at e' in
                let et : t ≡ ended (outcome_of (calls k).what) = cc in
                let es : state ≡ sync.leave true (calls k).seqid (sync.get_pending s.state).1 =
                  cc in
                let eb : input ≡ stream p (map calls is) = cc in
                rw (ik, et, es, eb)
                  (own-Inv s v.taken is k parts v.answered undone distinct v.right)
            | inr other ↦
                let (tw, held, eb) =
                  turn-other p law consuming sync thrift (calls i).name (calls i).seqid s.state
                    state s.input input t (calls k) _ other front e in
                rw (tw, eb)
                  (other-Inv s v.taken is k i state parts v.answered undone distinct v.right
                    (CanRun-Undone p sync calls s i can) held)
          ]

  -- Every run that begins before the first round, with the replies to come in some order.
  pub Reach-Inv :
      (s t : System p sync calls)
      → Inv p sync thrift calls order s
      → Reach p sync calls s t
      → Inv p sync thrift calls order t
  Reach-Inv s _ v here = v
  Reach-Inv s t v (next {t = u} reach step) = Step-Inv u t step (Reach-Inv s u v reach)

  -- Before the first round, with all replies to come in this order.
  pub start-Inv :
      (s : System p sync calls)
      → pending s.state ≡ none
      → s.input ≡ stream p (map calls order)
      → ((i : ℕ) → s.phase i ≡ ready)
      → Distinct order
      → Inv p sync thrift calls order s
  start-Inv s held full begun distinct = record {
    taken = [];
    remaining = order;
    parts = refl;
    answered = tt;
    undone = all_undone order;
    distinct = distinct;
    sends = rw full (Sends-stream p sync thrift calls s.state order held);
    right = λ i o e. absurd (let q = rw (begun i) at e in ground arith);
  }
    where
      all_undone : (is : List ℕ) → All (Undone p sync calls s) is
      all_undone [] = tt
      all_undone (i ∷ is) = (rw (begun i) refl, all_undone is)
