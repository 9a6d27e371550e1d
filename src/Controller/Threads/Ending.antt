-- ===== src/Controller/Threads/Ending.antt =====
-- The end of the threads of `main` after a signal.

use short_message.Prelude.{◌+◌, inl, inr, ◌≡◌, refl, Bool, true, false, Bytes, arith}
use short_message.Prelude.Int.{ℤ, pos, u32}
use short_message.Machine.{Result, ok}
use short_message.World.{Env}
use short_message.Handler.{Uninitialised}
use short_message.Qos.{QosSendDaemon, sleep}
use short_message.Qos
use short_message.Controller.{Config, Controller}
use short_message.Controller.Threads.{
  waits, joins_run, joins_qos, returns, serves, run_over, QosThread, tests, sleeps, qos_over,
  Process, run_step, qos_step, Step, by_main, by_run, by_qos, Reach, here, next,
}
use short_message.Controller.Threads.Places.{FlagInv, Inv, stopped, stop_lem, destroy_lem}
use short_message.Controller.Threads.Invariant.{Step-Inv}
use short_message.Controller.Threads.Safety.{Begun, reached}

module _ (makes : ℤ → ℤ → ℤ → ℤ → Bool) (listens : ℤ → Bool) (env : Env)
    (stack : Uninitialised) where
  open env use {server.{Db}}

  -- What a way to the end of `main` keeps: the tables and the messages sent.
  pub record Ends (s : Process Db) : Type 0 where
    pub last : Process Db
    pub way : Reach makes listens env stack s last
    pub returned : last.main ≡ returns (pos 0)
    pub db : last.world.db ≡ s.world.db
    pub sent : last.world.sent ≡ s.world.sent

  Reach-before :
      (s t u : Process Db)
      → Step makes listens env stack s t
      → Reach makes listens env stack t u
      → Reach makes listens env stack s u
  Reach-before s t _ step here = next here step
  Reach-before s t u step (next reach last) = next (Reach-before s t _ step reach) last

  -- A step before a way to the end.
  Ends-before :
      (s t : Process Db)
      → Step makes listens env stack s t
      → t.world.db ≡ s.world.db
      → t.world.sent ≡ s.world.sent
      → Ends t
      → Ends s
  Ends-before s t step db sent e = record {
    last = e.last;
    way = Reach-before s t e.last step e.way;
    returned = e.returned;
    db = cc;
    sent = cc;
  }

module _ (makes : ℤ → ℤ → ℤ → ℤ → Bool) (listens : ℤ → Bool) (env : Env) (stack : Uninitialised)
    (d : QosSendDaemon) (running : d.stop ≡ false) where
  open env use {server.{Db}}

  -- `main` in its second join, with the daemon's thread at an end.
  Ends-joined :
      (s : Process Db)
      → Inv d s
      → s.main ≡ joins_qos
      → s.qos ≡ qos_over
      → Ends makes listens env stack s
  Ends-joined s v m q =
      let (halt, up, over) = rw m at v.main_inv in
      record {
        last = record s { main = returns (pos 0) };
        way = next here (by_main _ (rw (m, q, destroy_lem s.controller halt v.flag_inv.0) refl));
        returned = refl;
        db = refl;
        sent = refl;
      }

  stopped_daemon : (c : Controller) → FlagInv d c → c.stop ≡ true → c.qos_send_daemon.stop ≡ true
  unfolding Qos.stop
  stopped_daemon c (pool, inl (runs, same)) e = absurd (let q = rw e at runs in ground arith)
  stopped_daemon c (pool, inr (halt, same)) e = rw same refl

  tests_lem :
      (s : Process Db)
      → s.qos ≡ tests
      → s.controller.qos_send_daemon.stop ≡ true
      → qos_step makes listens env stack s ≡ ok (record s { qos = qos_over })
  tests_lem s q told = simp (q, told) refl

  sleeps_lem :
      (s : Process Db)
      → s.qos ≡ sleeps
      → qos_step makes listens env stack s
        ≡ ok (record s {
          qos = tests;
          world = record s.world {
            now = s.world.now + u32 s.controller.qos_send_daemon.check_interval;
          };
        })
  unfolding sleep
  sleeps_lem s q = simp q refl

  Ends-tests :
      (s : Process Db)
      → Inv d s
      → s.main ≡ joins_qos
      → s.qos ≡ tests
      → Ends makes listens env stack s
  Ends-tests s v m q =
      let (halt, up, over) = rw m at v.main_inv in
      let step = by_qos _ (tests_lem s q (stopped_daemon s.controller v.flag_inv halt)) in
      Ends-before makes listens env stack s _ step refl refl
        (Ends-joined _ (Step-Inv makes listens env stack d s _ running step v) m refl)

  Ends-sleeps :
      (s : Process Db)
      → Inv d s
      → s.main ≡ joins_qos
      → s.qos ≡ sleeps
      → Ends makes listens env stack s
  Ends-sleeps s v m q =
      let step = by_qos _ (sleeps_lem s q) in
      Ends-before makes listens env stack s _ step refl refl
        (Ends-tests _ (Step-Inv makes listens env stack d s _ running step v) m refl)

  Ends-qos :
      (q : QosThread) (s : Process Db)
      → Inv d s
      → s.main ≡ joins_qos
      → s.qos ≡ q
      → Ends makes listens env stack s
  Ends-qos tests s v m e = Ends-tests s v m e
  Ends-qos sleeps s v m e = Ends-sleeps s v m e
  Ends-qos qos_over s v m e = Ends-joined s v m e

  Ends-over :
      (s : Process Db)
      → Inv d s
      → s.main ≡ joins_run
      → s.run ≡ run_over
      → Ends makes listens env stack s
  Ends-over s v m r =
      let step = by_main (record s { main = joins_qos }) (simp (m, r) refl) in
      Ends-before makes listens env stack s _ step refl refl
        (Ends-qos s.qos _ (Step-Inv makes listens env stack d s _ running step v) refl refl)

  serves_lem :
      (s : Process Db)
      → s.run ≡ serves
      → s.controller.serving ≡ false
      → run_step makes listens env stack s ≡ ok (record s { run = run_over })
  serves_lem s r down = simp (r, down) refl

  -- `main` in its first join, with a server that has been stopped since it listens.
  Ends-serves :
      (s : Process Db)
      → Inv d s
      → s.main ≡ joins_run
      → s.run ≡ serves
      → s.controller.serving ≡ false
      → Ends makes listens env stack s
  Ends-serves s v m r down =
      let step = by_run _ (serves_lem s r down) in
      Ends-before makes listens env stack s _ step refl refl
        (Ends-over _ (Step-Inv makes listens env stack d s _ running step v) m refl)

  pub Ends-waits :
      (s : Process Db)
      → Inv d s
      → s.main ≡ waits
      → s.stopped ≡ true
      → s.run ≡ serves
      → Ends makes listens env stack s
  Ends-waits s v m told r =
      let up = rw r at v.run_inv in
      let step =
        by_main (record s { controller = stopped s.controller; main = joins_run })
          (simp (m, told, stop_lem s.controller up) refl) in
      Ends-before makes listens env stack s _ step refl refl
        (Ends-serves _ (Step-Inv makes listens env stack d s _ running step v) refl r refl)

module _ (start : Bytes → ℤ → Result Bool) (makes : ℤ → ℤ → ℤ → ℤ → Bool) (listens : ℤ → Bool)
    (env : Env) (stack : Uninitialised) (config : Config) (s t : Process env.server.Db) where
  -- After an initialisation that has succeeded, whatever the threads of `main`, the clients and the
  -- signals have done: where a signal has come while the server's thread is in the loop of `serve`,
  -- and `main` still waits, `main` can come to its end. There is a way for the threads to go on, none of its
  -- steps faults, `main` has returned 0 at the end of it, and the tables and the messages sent are
  -- then as they were.
  pub Reach-Ends :
      Begun start makes listens env stack config s t
      → Reach makes listens env stack s t
      → t.main ≡ waits
      → t.stopped ≡ true
      → t.run ≡ serves
      → Ends makes listens env stack t
  Reach-Ends b reach m told r =
      let (running, v) = reached start makes listens env stack config s t b reach in
      Ends-waits makes listens env stack s.controller.qos_send_daemon running t v m told r
