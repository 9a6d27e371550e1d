-- ===== src/Utils.antt =====
-- src/commons/utils.cpp as it is built with PTHREAD: the wrappers of threads and of the time, which no
-- other part uses. pthread and the clock are parameters. BuildSockAddr is `socket_addr` of Socket.
use short_message.Prelude.{
  ◌+◌, Bool, true, false, Bytes, length, drop, ◌++◌, ◌∷◌, ltb, if◌then◌else◌, Option, none, some,
}
use short_message.Prelude.Int.{ℤ, pos, int_eq}
use short_message.Machine.{Result, ok, fault, out_of_bounds}

-- pthread, on its own state; `ThreadId` is pthread_t, and a thread is what it runs.
pub record Pthread : Type 1 where
  pub State : Type 0
  pub ThreadId : Type 0
  pub Routine : Type 0
  pub create : Routine → State → ℤ × ThreadId × State
  pub cancel : ThreadId → State → State
  pub join : ThreadId → State → State

module _ (lib : Pthread) where
  open lib use {State, ThreadId, Routine, create, cancel, join}

  -- StartThread, with what it leaves in `*thread_id`; the message of `perror` is left out.
  abbrev pub start_thread : Routine → State → Bool × ThreadId × State
  start_thread routine s =
      let (ret, id, s') = create routine s in
      if int_eq ret (pos 0) then (true, id, s') else (false, id, s')

  abbrev pub stop_thread : ThreadId → State → State
  stop_thread = cancel

  abbrev pub join_thread : ThreadId → State → State
  join_thread = join

-- `SafeDelete`; what `delete` does to the heap is a parameter.
abbrev pub safe_delete : {P H : Type 0} → (P → H → H) → Option P → H → Option P × H
safe_delete free (some p) h = (none, free p h)
safe_delete free none h = (none, h)

-- GetTime: `timenow` is the text of `asctime` for the present, which `strcpy` writes with its NUL.
abbrev pub get_time : Bytes → Bytes → Result Bytes
get_time timenow buffer =
    if ltb (length buffer) (length timenow + 1)
    then fault out_of_bounds
    else ok (timenow ++ 0 ∷ drop (length timenow + 1) buffer)
