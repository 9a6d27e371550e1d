-- ===== src/Controller/Threads.antt =====
-- The threads of `main`, src/main.cpp: the thread of Controller::Run with the requests that it serves, that
-- of QosSendDaemon::Start, the wait of `main` and the handler of signals, on one controller and one
-- world. A request is handled, and a round of the daemon is made, in one step.
pub mod Runs
pub mod Keeping
pub mod Places
pub mod Invariant
pub mod Safety
pub mod Ending
pub mod Hanging
use short_message.Prelude.{ℕ, ◌+◌, ◌≡◌, Bool, true, false, Bytes, List, if◌then◌else◌}
use short_message.Prelude.Int.{ℤ, pos}
use short_message.Machine.{Result, ok, ◌>>=◌}
use short_message.World.{Env, World}
use short_message.Qos.{round, sleep}
use short_message.Handler.{Uninitialised, access_to_logic}
use short_message.Controller.{Controller, make_server, serve, stop, destroy}

-- `main`: in its loop of `usleep`, in the two joins, and when it has returned.
pub data MainThread : Type 0 where
  waits : MainThread
  joins_run : MainThread
  joins_qos : MainThread
  returns : ℤ → MainThread

-- `Controller::Run`: before its `try`, when it has made the server, in the loop of `serve`, and when
-- it has returned.
pub data RunThread : Type 0 where
  begins : RunThread
  made : RunThread
  serves : RunThread
  run_over : RunThread

-- `QosSendDaemon::Start`: at `while (!stop_)`, in `sleep`, and when it has returned.
pub data QosThread : Type 0 where
  tests : QosThread
  sleeps : QosThread
  qos_over : QosThread

-- `stopped` is the global that the handler of signals sets.
pub record Process (Db : Type 0) : Type 0 where
  pub controller : Controller
  pub stopped : Bool
  pub main : MainThread
  pub run : RunThread
  pub qos : QosThread
  pub world : World Db

module _ {Db : Type 0} where
  -- sig_int
  abbrev pub sig_int : Process Db → Process Db
  sig_int s = record s { stopped = true }

  -- `join` of the thread of Controller::Run, and of that of the daemon, which end the calls of `main`.
  abbrev pub join_run : RunThread → Process Db → Process Db
  join_run run_over s = record s { main = joins_qos }
  join_run thread s = s

  abbrev pub join_qos : QosThread → Process Db → Result (Process Db)
  join_qos qos_over s = do gone ← destroy s.controller; ok (record s { main = returns (pos 0) })
  join_qos thread s = ok s

  -- One step of `main`, which may leave all as it is.
  abbrev pub main_at : MainThread → Process Db → Result (Process Db)
  main_at waits s =
      if s.stopped
      then (do c ← stop s.controller; ok (record s { controller = c; main = joins_run }))
      else ok s
  main_at joins_run s = ok (join_run s.run s)
  main_at joins_qos s = join_qos s.qos s
  main_at (returns v) s = ok s

  abbrev pub main_step : Process Db → Result (Process Db)
  main_step s = main_at s.main s

-- Whether the server's objects and threads can be made, and whether it can listen at a port.
module _ (makes : ℤ → ℤ → ℤ → ℤ → Bool) (listens : ℤ → Bool) (env : Env)
    (stack : Uninitialised) where
  open env use {server.{Db}}

  -- The `try` of `Run`.
  abbrev pub begin_run : Process Db → Process Db
  begin_run s =
      let c = make_server makes listens s.controller in
      record s { controller = c; run = if c.server then made else run_over }

  -- `serve` returns when the server has been stopped. What it throws ends the process.
  abbrev pub run_at : RunThread → Process Db → Result (Process Db)
  run_at begins s = ok (begin_run s)
  run_at made s = do
    c ← serve makes listens s.controller
    ok (record s { controller = c; run = serves })
  run_at serves s = ok (if s.controller.serving then s else record s { run = run_over })
  run_at run_over s = ok s

  abbrev pub run_step : Process Db → Result (Process Db)
  run_step s = run_at s.run s

  abbrev pub qos_at : QosThread → Process Db → Result (Process Db)
  qos_at tests s =
      if s.controller.qos_send_daemon.stop then ok (record s { qos = qos_over }) else (do
        (u, w) ← round env s.controller.qos_send_daemon s.world
        ok (record s { qos = sleeps; world = w }))
  qos_at sleeps s = do
    (u, w) ← sleep env s.controller.qos_send_daemon.check_interval s.world
    ok (record s { qos = tests; world = w })
  qos_at qos_over s = ok s

  abbrev pub qos_step : Process Db → Result (Process Db)
  qos_step s = qos_at s.qos s

  -- One step of the process; one that faults leads nowhere.
  pub data Step (s : Process Db) : Process Db → Type 0 where
    by_main : (t : Process Db) → main_step s ≡ ok t → Step s t
    by_run : (t : Process Db) → run_step s ≡ ok t → Step s t
    by_qos : (t : Process Db) → qos_step s ≡ ok t → Step s t
    by_signal : Step s (sig_int s)
    -- a thread of the server handles a request
    by_client :
        (request : Bytes) (w : World Db)
        → s.run ≡ serves
        → access_to_logic env stack request s.world ≡ ok (tt, w)
        → Step s (record s { world = w })
    -- time passes, and connections go into the pool or out of it
    by_time : (n : ℕ) → Step s (record s { world = record s.world { now = s.world.now + n } })
    by_pool : (pool : List Bool) → Step s (record s { world = record s.world { pool = pool } })

  pub data Reach (s : Process Db) : Process Db → Type 0 where
    here : Reach s s
    next : {t u : Process Db} → Reach s t → Step t u → Reach s u

  -- What is required of a request, of each that is handled in the step or in the run.
  abbrev pub Asked : (Bytes → Type 0) → (s t : Process Db) → Step s t → Type 0
  Asked Q s _ (by_client request w e r) = Q request
  Asked Q s _ step = Unit {0}

  abbrev pub AllAsked : (Bytes → Type 0) → (s t : Process Db) → Reach s t → Type 0
  AllAsked Q s _ here = Unit {0}
  AllAsked Q s t (next {t = u} reach step) = AllAsked Q s u reach × Asked Q u t step
