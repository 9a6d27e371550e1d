-- ===== src/Controller/Threads/Safety.antt =====
-- When a run of the threads of `main` fails, and how it ends.
use short_message.Prelude.{
  ◌≡◌, ◌≢◌, ◌⊎◌, inl, inr, refl, ◌&&◌, not, Bool, true, false, none, Bytes, Bool-cases, arith,
}
use short_message.Prelude.Int.{ℤ, pos}
use short_message.Machine.{Result, ok, fault, no_object}
use short_message.World.{Env}
use short_message.Handler.{Uninitialised}
use short_message.Qos.{QosSendDaemon}
use short_message.Controller.{Config, new_controller, init, stop}
use short_message.Controller.Life.{init-Fresh}
use short_message.Controller.Threads.{
  MainThread, waits, joins_run, joins_qos, returns, begins, run_over, QosThread, tests, sleeps,
  qos_over, Process, join_qos, main_at, main_step, Reach,
}
use short_message.Controller.Threads.Places.{MainInv, Inv, stopped, stop_lem, destroy_lem}
use short_message.Controller.Threads.Invariant.{Reach-Inv}

abbrev pub is_waiting : MainThread → Bool
is_waiting waits = true
is_waiting thread = false

-- A signal has come while there is no server.
abbrev pub crashes : {Db : Type 0} → Process Db → Bool
crashes s = is_waiting s.main && s.stopped && not s.controller.server

pub record IsSafe {Db : Type 0} (s : Process Db) : Type 0 where
  pub fails :
      ((main_step s ≡ fault no_object) × (crashes s ≡ true))
      ⊎ ((t : Process Db) × (main_step s ≡ ok t) × (crashes s ≡ false))
  pub done :
      (v : ℤ)
      → s.main ≡ returns v
      → (v ≡ pos 0) × (s.run ≡ run_over) × (s.qos ≡ qos_over) × (s.controller.serving ≡ false)

module _ {Db : Type 0} where
  join_qos_ends :
      (q : QosThread) (s : Process Db)
      → s.controller.stop ≡ true
      → s.controller.pool ≢ none
      → (t : Process Db) × (join_qos q s ≡ ok t)
  join_qos_ends qos_over s halt pool =
      (record s { main = returns (pos 0) }, rw (destroy_lem s.controller halt pool) refl)
  join_qos_ends tests s halt pool = (_, refl)
  join_qos_ends sleeps s halt pool = (_, refl)

  fails_lem :
      (m : MainThread) (s : Process Db)
      → MainInv m s.run s.qos s.controller
      → s.controller.pool ≢ none
      → ((main_at m s ≡ fault no_object)
          × ((is_waiting m && s.stopped && not s.controller.server) ≡ true))
        ⊎ ((t : Process Db) × (main_at m s ≡ ok t)
            × ((is_waiting m && s.stopped && not s.controller.server) ≡ false))
  fails_lem waits s v pool = elim (Bool-cases s.stopped) [
    | inl told ↦ elim (Bool-cases s.controller.server) [
      | inl up ↦ inr (
        record s { controller = stopped s.controller; main = joins_run },
        simp (told, stop_lem s.controller up) refl,
        simp (told, up) refl,
      )
      | inr down ↦ inl (unfold stop in simp (told, down) refl, simp (told, down) refl)
    ]
    | inr other ↦ inr (s, simp other refl, simp other refl)
  ]
  fails_lem joins_run s v pool = inr (_, refl, refl)
  fails_lem joins_qos s (halt, up, over) pool =
      let (t, e) = join_qos_ends s.qos s halt pool in inr (t, e, refl)
  fails_lem (returns x) s v pool = inr (s, refl, refl)

  Inv-IsSafe : (d : QosSendDaemon) (s : Process Db) → Inv d s → IsSafe s
  Inv-IsSafe d s v = record {
    fails = fails_lem s.main s v.main_inv v.flag_inv.0;
    done = λ x e.
        (let (halt, up, over, ended, z) = rw e at v.main_inv in
          (z, over, ended, (rw over at v.run_inv)));
  }

module _ (start : Bytes → ℤ → Result Bool) (makes : ℤ → ℤ → ℤ → ℤ → Bool) (listens : ℤ → Bool)
    (env : Env) (stack : Uninitialised) (config : Config) (s t : Process env.server.Db) where
  -- The initialisation has succeeded, and the two threads have been made.
  pub record Begun : Type 0 where
    pub set_up : init start config new_controller ≡ ok (true, s.controller)
    pub main_waits : s.main ≡ waits
    pub run_begins : s.run ≡ begins
    pub qos_tests : s.qos ≡ tests

  pub Begun-Inv :
      Begun → (s.controller.qos_send_daemon.stop ≡ false) × Inv s.controller.qos_send_daemon s
  Begun-Inv b =
      let fresh = init-Fresh start config (true, s.controller) b.set_up in
      (
        fresh.runs,
        record {
          main_inv = rw b.main_waits fresh.stop;
          run_inv = rw b.run_begins (fresh.server, fresh.serving, fresh.stop);
          flag_inv = (fresh.pool refl, inl (fresh.stop, refl));
          ends = λ e. absurd (let q = rw b.qos_tests at e in ground arith);
        },
      )

  pub reached :
      Begun
      → Reach makes listens env stack s t
      → (s.controller.qos_send_daemon.stop ≡ false) × Inv s.controller.qos_send_daemon t
  reached b reach =
      let (runs, v) = Begun-Inv b in
      (runs, Reach-Inv makes listens env stack s.controller.qos_send_daemon s t runs reach v)

  -- After an initialisation that has succeeded, whatever the threads of `main`, the clients and the
  -- signals have done, in whatever order: the next step of `main` faults exactly if `main` still
  -- waits, a signal has come, and there is no server; it then uses a pointer to no object. And where
  -- `main` has returned, it has returned 0, both threads have ended, and no server serves.
  pub Reach-IsSafe : Begun → Reach makes listens env stack s t → IsSafe t
  Reach-IsSafe b reach = Inv-IsSafe s.controller.qos_send_daemon t (reached b reach).1
