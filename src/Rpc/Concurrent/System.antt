-- ===== src/Rpc/Concurrent/System.antt =====
-- The callers of one LogicInterfaceConcurrentClient, a round at a time and in any order, with the
-- replies of the server in any order.
use short_message.Prelude.{
  ℕ, ◌≡◌, ◌≢◌, refl, Bool, true, false, List, [], ◌∷◌, Bytes, All, ◌==◌, if◌then◌else◌, arith,
}
use short_message.Machine.{ok}
use short_message.Rpc.Wire.{TProtocol}
use short_message.Rpc.Concurrent.{SyncInfo, Outcome, Turn, ended, waits, turn}
use short_message.Rpc.Concurrent.Turns.{Call, outcome_of}

-- A caller before its first round, in `waitForWork`, and after the end of its call.
pub data Phase : Type 0 where
  ready : Phase
  waiting : Phase
  done : Outcome → Phase

abbrev pub phase_after : Turn → Phase
phase_after (ended outcome) = done outcome
phase_after waits = waiting

abbrev pub is_done : Phase → Bool
is_done (done outcome) = true
is_done phase = false

-- The phases, with that of one caller changed.
abbrev pub change : (ℕ → Phase) → ℕ → Phase → ℕ → Phase
change phase i p j = if j == i then p else phase j

module _ (p : TProtocol) (sync : SyncInfo) (calls : ℕ → Call) where
  -- The shared object, what the server still sends, and the callers.
  pub record System : Type 0 where
    pub state : sync.State
    pub input : Bytes
    pub phase : ℕ → Phase

  -- A caller gets the mutex at its first round, or when `waitForWork` returns, which it may do where
  -- what it waits for holds.
  pub data CanRun (s : System) (i : ℕ) : Type 0 where
    begins : s.phase i ≡ ready → CanRun s i
    woken : s.phase i ≡ waiting → sync.wakes (calls i).seqid s.state ≡ true → CanRun s i

  -- One round of one caller.
  pub data Step (s : System) : System → Type 0 where
    round :
        (i : ℕ) (t : Turn) (state : sync.State) (input : Bytes)
        → CanRun s i
        → turn p sync (calls i).name (calls i).seqid s.state s.input ≡ ok (t, state, input)
        → Step s (record { state = state; input = input; phase = change s.phase i (phase_after t) })

  pub data Reach (s : System) : System → Type 0 where
    here : Reach s s
    next : {t u : System} → Reach s t → Step t u → Reach s u

  -- What caller `i` is to see.
  abbrev pub Answered : System → ℕ → Type 0
  Answered s i = s.phase i ≡ done (outcome_of (calls i).what)

  abbrev pub Undone : System → ℕ → Type 0
  Undone s i = is_done (s.phase i) ≡ false

  pub CanRun-Undone : (s : System) (i : ℕ) → CanRun s i → Undone s i
  CanRun-Undone s i (begins e) = rw e refl
  CanRun-Undone s i (woken e w) = rw e refl

-- Numbers that differ.
abbrev pub Distinct : List ℕ → Type 0
Distinct [] = Unit {0}
Distinct (i ∷ is) = All (λ j. j ≢ i) is × Distinct is

pub change-other : (phase : ℕ → Phase) (i j : ℕ) (p : Phase) → j ≢ i → change phase i p j ≡ phase j
change-other phase i j p ne = ground arith

pub change-same : (phase : ℕ → Phase) (i : ℕ) (p : Phase) → change phase i p i ≡ p
change-same phase i p = ground arith
