-- ===== src/Controller/Threads/Invariant.antt =====
-- What every run of the threads of `main` keeps, from a controller whose initialisation has succeeded.
use mathlib.Core.Path.{subst}
use short_message.Prelude.{
  else_lem, if_both, ◌≡◌, ◌≢◌, inl, inr, refl, Bool, true, false, if◌then◌else◌, Bool-cases, arith,
}
use short_message.Prelude.Int.{ℤ, pos}
use short_message.Machine.{Result, ok, fault, ◌>>=◌}
use short_message.World.{Env, World}
use short_message.Handler.{Uninitialised}
use short_message.Qos.{QosSendDaemon, round, sleep}
use short_message.Controller.{Controller, make_server, serve, stop}
use short_message.Controller.Threads.{
  join_run, join_qos, MainThread, waits, joins_run, joins_qos, returns, RunThread, begins, made,
  begin_run, serves, run_over, QosThread, tests, sleeps, qos_over, Process, main_at, run_at, qos_at,
  Step, by_main, by_run, by_qos, by_signal, by_client, by_time, by_pool, Reach, here, next,
}
use short_message.Controller.Threads.Places.{
  FlagInv, Inv, stopped, stop_lem, destroy_lem, RunInv-stopped, FlagInv-stopped, FlagInv-server,
  MainInv-begun, MainInv-served, MainInv-over, MainInv-goes_on,
}

module _ {Db : Type 0} (d : QosSendDaemon) (running : d.stop ≡ false) where
  stopped-Inv :
      (s : Process Db)
      → s.main ≡ waits
      → s.controller.server ≡ true
      → Inv d s
      → Inv d (record s { controller = stopped s.controller; main = joins_run })
  stopped-Inv s m up v = record {
    main_inv = (refl, up);
    run_inv = RunInv-stopped s.run s.controller up v.run_inv;
    flag_inv = FlagInv-stopped s.controller (rw m at v.main_inv) v.flag_inv;
    ends = λ e. refl;
  }

  waits-Inv : (s t : Process Db) → s.main ≡ waits → Inv d s → main_at waits s ≡ ok t → Inv d t
  waits-Inv s t m v e = elim (Bool-cases s.stopped) [
    | inl told ↦ elim (Bool-cases s.controller.server) [
      | inl up ↦
          let q = rw (told, stop_lem s.controller up) at e in
          subst (Inv d) (ground arith) (stopped-Inv s m up v)
      | inr down ↦ absurd (unfold stop in let q = rw (told, down) at e in ground arith)
    ]
    | inr other ↦ let q = rw other at e in subst (Inv d) (ground arith) v
  ]

  join_run-Inv :
      (r : RunThread) (s : Process Db)
      → s.run ≡ r
      → s.main ≡ joins_run
      → Inv d s
      → Inv d (join_run r s)
  join_run-Inv run_over s e m v =
      let (halt, up) = rw m at v.main_inv in
      record { main_inv = (halt, up, e); run_inv = v.run_inv; flag_inv = v.flag_inv; ends = v.ends }
  join_run-Inv begins s e m v = v
  join_run-Inv made s e m v = v
  join_run-Inv serves s e m v = v

  join_qos-Inv :
      (q : QosThread) (s t : Process Db)
      → s.qos ≡ q
      → s.main ≡ joins_qos
      → Inv d s
      → join_qos q s ≡ ok t
      → Inv d t
  join_qos-Inv qos_over s t e m v ends =
      let (halt, up, over) = rw m at v.main_inv in
      let q = rw (destroy_lem s.controller halt v.flag_inv.0) at ends in
      let v' : Inv d (record s { main = returns (pos 0) }) = record {
        main_inv = (halt, up, over, e, refl);
        run_inv = v.run_inv;
        flag_inv = v.flag_inv;
        ends = v.ends;
      } in
      subst (Inv d) (ground arith) v'
  join_qos-Inv tests s t e m v ends = subst (Inv d) (ground arith) v
  join_qos-Inv sleeps s t e m v ends = subst (Inv d) (ground arith) v

  main-Inv :
      (m : MainThread) (s t : Process Db) → s.main ≡ m → Inv d s → main_at m s ≡ ok t → Inv d t
  main-Inv waits s t m v e = waits-Inv s t m v e
  main-Inv joins_run s t m v e = subst (Inv d) (ground arith) (join_run-Inv s.run s refl m v)
  main-Inv joins_qos s t m v e = join_qos-Inv s.qos s t refl m v e
  main-Inv (returns x) s t m v e = subst (Inv d) (ground arith) v

-- The thread of the server, whether it can be made and can listen or not.
module _ (makes : ℤ → ℤ → ℤ → ℤ → Bool) (listens : ℤ → Bool) (env : Env) (stack : Uninitialised)
    (d : QosSendDaemon) where
  open env use {server.{Db}}

  begun-Inv :
      (s : Process Db)
      → s.controller.server ≡ false
      → s.controller.serving ≡ false
      → s.controller.stop ≡ false
      → Inv d s
      → Inv d (begin_run makes listens env stack s)
  unfolding make_server
  begun-Inv s down off e v =
      if_both (λ c. Inv d (record s { controller = c; run = if c.server then made else run_over }))
        (makes s.controller.port s.controller.write_timeout s.controller.read_timeout
          s.controller.thread_cnt)
        (record s.controller { server = true }) s.controller
        (λ up. record {
          main_inv = MainInv-begun s.main s.run made s.qos s.controller _ down e v.main_inv;
          run_inv = (refl, off);
          flag_inv = FlagInv-server s.controller e v.flag_inv;
          ends = v.ends;
        })
        (λ fails.
          if_both (λ r. Inv d (record s { run = r })) s.controller.server made run_over
            (λ up. absurd (let x = rw down at up in ground arith))
            (λ over. record {
              main_inv =
                  MainInv-begun s.main s.run run_over s.qos s.controller s.controller down e
                    v.main_inv;
              run_inv = off;
              flag_inv = v.flag_inv;
              ends = v.ends;
            }))

  ok_inj : {s t : Process Db} → Result.ok s ≡ ok t → s ≡ t
  ok_inj e = ground arith

  -- A server that listens.
  pub served_lem :
      (s t : Process Db)
      → run_at makes listens env stack made s ≡ ok t
      → record s { controller = record s.controller { serving = true }; run = serves } ≡ t
  unfolding serve
  served_lem s t e = ground arith

  run-Inv :
      (r : RunThread) (s t : Process Db)
      → s.run ≡ r
      → Inv d s
      → run_at makes listens env stack r s ≡ ok t
      → Inv d t
  run-Inv begins s t e v ends =
      let (down, off, halt) = rw e at v.run_inv in
      subst (Inv d) (ok_inj ends) (begun-Inv s down off halt v)
  run-Inv made s t e v ends = subst (Inv d) (served_lem s t ends) (record {
    main_inv =
        MainInv-served s.main s.run serves s.qos s.controller
          (λ over. let q = rw e at over in ground arith) v.main_inv;
    run_inv = (rw e at v.run_inv).0;
    flag_inv = v.flag_inv;
    ends = v.ends;
  })
  run-Inv serves s t e v ends = subst (Inv d) (ok_inj ends) (
      if_both (Inv d) s.controller.serving s (record s { run = run_over }) (λ up. v)
        (λ down. record {
          main_inv = MainInv-over s.main s.run s.qos s.controller v.main_inv;
          run_inv = down;
          flag_inv = v.flag_inv;
          ends = v.ends;
        }))
  run-Inv run_over s t e v ends = subst (Inv d) (ok_inj ends) v

  goes_on-Inv :
      (s : Process Db) (q : QosThread) (w : World Db)
      → s.qos ≢ qos_over
      → (q ≡ qos_over → s.controller.stop ≡ true)
      → Inv d s
      → Inv d (record s { qos = q; world = w })
  goes_on-Inv s q w ne h v = record {
    main_inv = MainInv-goes_on s.main s.run s.qos q s.controller ne v.main_inv;
    run_inv = v.run_inv;
    flag_inv = v.flag_inv;
    ends = h;
  }

  told_to_stop :
      (c : Controller)
      → d.stop ≡ false
      → FlagInv d c
      → c.qos_send_daemon.stop ≡ true
      → c.stop ≡ true
  told_to_stop c e (pool, inl (run, same)) h =
      absurd (let x = rw same at h in let y = rw e at x in ground arith)
  told_to_stop c e (pool, inr (halt, same)) h = halt

  -- A step of the daemon is an action on the world.
  acted :
      (s t : Process Db) (q : QosThread) (r : Result (Unit {0} × World Db))
      → (r >>= λ (u, w). ok (record s { qos = q; world = w })) ≡ ok t
      → (w : World Db) × (record s { qos = q; world = w } ≡ t)
  acted s t q (ok (tt, w)) e = (w, ground arith)
  acted s t q (fault x) e = absurd (ground arith)

  qos-Inv :
      (q : QosThread) (s t : Process Db)
      → d.stop ≡ false
      → s.qos ≡ q
      → Inv d s
      → qos_at makes listens env stack q s ≡ ok t
      → Inv d t
  qos-Inv tests s t running e v ends = elim (Bool-cases s.controller.qos_send_daemon.stop) [
    | inl told ↦
        let x = rw told at ends in
        let v' =
          goes_on-Inv s qos_over s.world (λ h. let y = rw e at h in ground arith)
            (λ h. told_to_stop s.controller running v.flag_inv told) v in
        subst (Inv d) (ground arith) v'
    | inr runs ↦
        let (w, same) =
          acted s t sleeps (round env s.controller.qos_send_daemon s.world)
            (else_lem s.controller.qos_send_daemon.stop _ _ (ok t) runs ends) in
        let v' =
          goes_on-Inv s sleeps w (λ h. let y = rw e at h in ground arith)
            (λ h. absurd (ground arith)) v in
        subst (Inv d) same v'
  ]
  qos-Inv sleeps s t running e v ends =
      let (w, same) =
        acted s t tests (sleep env s.controller.qos_send_daemon.check_interval s.world) ends in
      let v' =
        goes_on-Inv s tests w (λ h. let y = rw e at h in ground arith) (λ h. absurd (ground arith))
          v in
      subst (Inv d) same v'
  qos-Inv qos_over s t running e v ends = subst (Inv d) (ground arith) v

  pub Step-Inv :
      (s t : Process Db) → d.stop ≡ false → Step makes listens env stack s t → Inv d s → Inv d t
  Step-Inv s _ running (by_main t e) v = main-Inv d running s.main s t refl v e
  Step-Inv s _ running (by_run t e) v = run-Inv s.run s t refl v e
  Step-Inv s _ running (by_qos t e) v = qos-Inv s.qos s t running refl v e
  Step-Inv s _ running by_signal v = record {
    main_inv = v.main_inv;
    run_inv = v.run_inv;
    flag_inv = v.flag_inv;
    ends = v.ends;
  }
  Step-Inv s _ running (by_client request w e r) v = record {
    main_inv = v.main_inv;
    run_inv = v.run_inv;
    flag_inv = v.flag_inv;
    ends = v.ends;
  }
  Step-Inv s _ running (by_time n) v = record {
    main_inv = v.main_inv;
    run_inv = v.run_inv;
    flag_inv = v.flag_inv;
    ends = v.ends;
  }
  Step-Inv s _ running (by_pool pool) v = record {
    main_inv = v.main_inv;
    run_inv = v.run_inv;
    flag_inv = v.flag_inv;
    ends = v.ends;
  }

  pub Reach-Inv :
      (s t : Process Db) → d.stop ≡ false → Reach makes listens env stack s t → Inv d s → Inv d t
  Reach-Inv s _ running here v = v
  Reach-Inv s t running (next {t = u} reach step) v =
      Step-Inv u t running step (Reach-Inv s u running reach v)
