-- ===== src/Controller/Threads/Hanging.antt =====
-- A `Stop` that comes before the server listens.
use mathlib.Core.Path.{subst}
use short_message.Prelude.{
  ◌≡◌, inl, inr, refl, Bool, true, Bytes, Bool-cases, arith, else_lem, if◌then◌else◌,
}
use short_message.Prelude.Int.{ℤ}
use short_message.Machine.{Result, ok, fault, ◌>>=◌}
use short_message.World.{Env, World}
use short_message.Qos.{round, sleep}
use short_message.Handler.{Uninitialised}
use short_message.Controller.{Config, serve}
use short_message.Controller.Threads.{
  waits, joins_run, made, serves, QosThread, tests, sleeps, qos_over, Process, qos_at, main_step,
  run_step, Step, by_main, by_run, by_qos, by_signal, by_client, by_time, by_pool, Reach, here,
  next,
}
use short_message.Controller.Threads.Places.{stopped, stop_lem}
use short_message.Controller.Threads.Safety.{Begun, reached}

module _ (makes : ℤ → ℤ → ℤ → ℤ → Bool) (listens : ℤ → Bool) (env : Env)
    (stack : Uninitialised) where
  open env use {server.{Db}}

  -- `main` waits for a thread whose server still serves.
  pub record IsHung (s : Process Db) : Type 0 where
    pub joins : s.main ≡ joins_run
    pub in_loop : s.run ≡ serves
    pub serving : s.controller.serving ≡ true

  -- `main` hangs from some state on: one that can come, and after which `main` never leaves its join.
  pub record Hangs (s : Process Db) : Type 0 where
    pub hung : Process Db
    pub way : Reach makes listens env stack s hung
    pub never : (t : Process Db) → Reach makes listens env stack hung t → t.main ≡ joins_run

  then_lem : (b : Bool) (x y r : Result (Process Db)) → b ≡ true → (if b then x else y) ≡ r → x ≡ r
  then_lem b x y r h e = ground arith

  -- What the daemon leaves as it is.
  abbrev Same : Process Db → Process Db → Type 0
  Same s t = (t.main ≡ s.main) × (t.run ≡ s.run) × (t.controller ≡ s.controller)

  Same-ok : (s u t : Process Db) → Same s u → Result.ok u ≡ ok t → Same s t
  Same-ok s u t h e = let q : u ≡ t = ground arith in subst (Same s) q h

  acted-Same :
      (s t : Process Db) (q : QosThread) (r : Result (Unit {0} × World Db))
      → (r >>= λ (u, w). ok (record s { qos = q; world = w })) ≡ ok t
      → Same s t
  acted-Same s t q (ok (u, w)) e =
      Same-ok s (record s { qos = q; world = w }) t (refl, refl, refl) e
  acted-Same s t q (fault x) e = absurd (ground arith)

  qos-Same :
      (q : QosThread) (s t : Process Db) → qos_at makes listens env stack q s ≡ ok t → Same s t
  qos-Same tests s t e = elim (Bool-cases s.controller.qos_send_daemon.stop) [
    | inl told ↦
        Same-ok s (record s { qos = qos_over }) t (refl, refl, refl)
          (then_lem s.controller.qos_send_daemon.stop _ _ (ok t) told e)
    | inr runs ↦
        acted-Same s t sleeps (round env s.controller.qos_send_daemon s.world)
          (else_lem s.controller.qos_send_daemon.stop _ _ (ok t) runs e)
  ]
  qos-Same sleeps s t e =
      acted-Same s t tests (sleep env s.controller.qos_send_daemon.check_interval s.world) e
  qos-Same qos_over s t e = Same-ok s s t (refl, refl, refl) e

  hung_main : (s : Process Db) → IsHung s → main_step s ≡ ok s
  hung_main s h = simp (h.joins, h.in_loop) refl

  hung_run : (s : Process Db) → IsHung s → run_step makes listens env stack s ≡ ok s
  hung_run s h = simp (h.in_loop, h.serving) refl

  same_end : (s t : Process Db) (r : Result (Process Db)) → r ≡ ok s → r ≡ ok t → s ≡ t
  same_end s t r a b = ground arith

  Step-IsHung : (s t : Process Db) → Step makes listens env stack s t → IsHung s → IsHung t
  Step-IsHung s _ (by_main t e) h = subst IsHung (same_end s t (main_step s) (hung_main s h) e) h
  Step-IsHung s _ (by_run t e) h =
      subst IsHung (same_end s t (run_step makes listens env stack s) (hung_run s h) e) h
  Step-IsHung s _ (by_qos t e) h =
      let (m, r, c) = qos-Same s.qos s t e in
      record { joins = rw m h.joins; in_loop = rw r h.in_loop; serving = rw c h.serving }
  Step-IsHung s _ by_signal h = record { joins = h.joins; in_loop = h.in_loop; serving = h.serving }
  Step-IsHung s _ (by_client request w e r) h = record {
    joins = h.joins;
    in_loop = h.in_loop;
    serving = h.serving;
  }
  Step-IsHung s _ (by_time n) h = record {
    joins = h.joins;
    in_loop = h.in_loop;
    serving = h.serving;
  }
  Step-IsHung s _ (by_pool pool) h = record {
    joins = h.joins;
    in_loop = h.in_loop;
    serving = h.serving;
  }

  Reach-IsHung : (s t : Process Db) → IsHung s → Reach makes listens env stack s t → IsHung t
  Reach-IsHung s _ h here = h
  Reach-IsHung s t h (next {t = u} reach step) = Step-IsHung u t step (Reach-IsHung s u h reach)

  hung_of : Process Db → Process Db
  hung_of s = record s {
    controller = record (stopped s.controller) { serving = true };
    main = joins_run;
    run = serves;
  }

  Hangs-made :
      (s : Process Db)
      → s.controller.server ≡ true
      → s.main ≡ waits
      → s.stopped ≡ true
      → s.run ≡ made
      → listens s.controller.port ≡ true
      → Hangs s
  unfolding serve hung_of
  Hangs-made s up m told r good = record {
    hung = hung_of s;
    way =
        next
          (next here (
            by_main (record s { controller = stopped s.controller; main = joins_run })
              (simp (m, told, stop_lem s.controller up) refl)))
          (by_run (hung_of s) (simp (r, good) refl));
    never = λ t reach.
        (let h =
            Reach-IsHung (hung_of s) t (record { joins = refl; in_loop = refl; serving = refl })
              reach in
          h.joins);
  }

module _ (start : Bytes → ℤ → Result Bool) (makes : ℤ → ℤ → ℤ → ℤ → Bool) (listens : ℤ → Bool)
    (env : Env) (stack : Uninitialised) (config : Config) (s t : Process env.server.Db) where
  -- After an initialisation that has succeeded, whatever the threads of `main`, the clients and the
  -- signals have done: where a signal has come, `main` still waits, and the server's thread has made
  -- its server but does not listen yet, and can listen at its port, the process may hang. There is a
  -- way for the threads to go on, none of its steps faults, to a state from which `main` stands
  -- in its join of the server's thread for ever, whatever the threads, the clients and further signals do.
  pub Reach-Hangs :
      Begun start makes listens env stack config s t
      → Reach makes listens env stack s t
      → t.main ≡ waits
      → t.stopped ≡ true
      → t.run ≡ made
      → listens t.controller.port ≡ true
      → Hangs makes listens env stack t
  Reach-Hangs b reach m told r good =
      let (running, v) = reached start makes listens env stack config s t b reach in
      Hangs-made makes listens env stack t (rw r at v.run_inv).0 m told r good
