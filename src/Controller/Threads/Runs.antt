-- ===== src/Controller/Threads/Runs.antt =====
-- The runs of the threads of `main` are runs of the server.
use mathlib.Core.Path.{subst}
use short_message.Prelude.{
  All, else_lem, if_both, ◌+◌, ◌≡◌, sym, inl, inr, refl, Bool, false, List, [], ◌∷◌, ◌++◌, Bytes,
  Bool-cases, arith, if◌then◌else◌,
}
use short_message.Prelude.Int.{ℤ, u32}
use short_message.Machine.{Result, ok, fault, ◌>>=◌}
use short_message.World.{Env, World}
use short_message.Handler.{Uninitialised}
use short_message.Qos.{QosSendDaemon, round, sleep}
use short_message.Qos
use short_message.System.{
  IsSpared, IsCached, Run-IsCached, Run-Begins, Event, called, rounded, waited, pooled, Run,
  at_rest, and_then, call_step, round_step, wait_step, pool_step,
}
use short_message.System
use short_message.Controller.{Config, Controller, serve, stop, destroy}
use short_message.Controller.Threads.{
  Asked, AllAsked, MainThread, waits, joins_run, joins_qos, returns, RunThread, begins, made,
  begin_run, serves, run_over, QosThread, tests, sleeps, qos_over, Process, join_run, join_qos,
  main_at, run_at, qos_at, Step, by_main, by_run, by_qos, by_signal, by_client, by_time, by_pool,
  Reach, here, next,
}
use short_message.Controller.Threads.Places.{FlagInv, Inv}
use short_message.Controller.Threads.Invariant.{Reach-Inv}
use short_message.Controller.Threads.Safety.{Begun, Begun-Inv}

module _ {Db : Type 0} where
  join_run_world : (r : RunThread) (s : Process Db) → (join_run r s).world ≡ s.world
  join_run_world begins s = refl
  join_run_world made s = refl
  join_run_world serves s = refl
  join_run_world run_over s = refl

  -- A step that may fault, and that changes no world.
  ended_world :
      {A : Type 0} (r : Result A) (f : A → Process Db) (s t : Process Db)
      → ((a : A) → (f a).world ≡ s.world)
      → (r >>= λ a. ok (f a)) ≡ ok t
      → t.world ≡ s.world
  ended_world (ok a) f s t same e =
      let q : f a ≡ t = ground arith in subst (λ x. x.world ≡ s.world) q (same a)
  ended_world (fault x) f s t same e = absurd (ground arith)

  ok_world : (u s t : Process Db) → u.world ≡ s.world → Result.ok u ≡ ok t → t.world ≡ s.world
  ok_world u s t same e = let q : u ≡ t = ground arith in subst (λ x. x.world ≡ s.world) q same

  join_qos_world : (q : QosThread) (s t : Process Db) → join_qos q s ≡ ok t → t.world ≡ s.world
  join_qos_world qos_over s t e = ended_world (destroy s.controller) _ s t (λ a. refl) e
  join_qos_world tests s t e = ground arith
  join_qos_world sleeps s t e = ground arith

  -- `main` does nothing to the database, the clock and the pool.
  main_world : (m : MainThread) (s t : Process Db) → main_at m s ≡ ok t → t.world ≡ s.world
  main_world waits s t e = elim (Bool-cases s.stopped) [
    | inl told ↦ ended_world (stop s.controller) _ s t (λ a. refl) (rw told at e)
    | inr other ↦ let q = rw other at e in ground arith
  ]
  main_world joins_run s t e =
      ended_world (ok tt) (λ u. join_run s.run s) s t (λ u. join_run_world s.run s) e
  main_world joins_qos s t e = join_qos_world s.qos s t e
  main_world (returns v) s t e = ground arith

-- A daemon that is not stopped has the settings that it has begun with.
same_daemon :
    (d : QosSendDaemon) (c : Controller)
    → FlagInv d c
    → c.qos_send_daemon.stop ≡ false
    → c.qos_send_daemon ≡ d
unfolding Qos.stop
same_daemon d c (pool, inl (runs, same)) e = same
same_daemon d c (pool, inr (halt, same)) e = absurd (let q = rw same at e in ground arith)

-- What is required of a request, of an event.
abbrev pub Asks : (Bytes → Type 0) → Event → Type 0
Asks Q (called request) = Q request
Asks Q event = Unit {0}

All-append : (P : Event → Type 0) (es fs : List Event) → All P es → All P fs → All P (es ++ fs)
All-append P [] fs h k = k
All-append P (e ∷ es) fs (x, h) k = (x, All-append P es fs h k)

module _ (makes : ℤ → ℤ → ℤ → ℤ → Bool) (listens : ℤ → Bool) (env : Env)
    (stack : Uninitialised) where
  open env use {server.{Db}}

  run_world :
      (r : RunThread) (s t : Process Db)
      → run_at makes listens env stack r s ≡ ok t
      → t.world ≡ s.world
  run_world begins s t e = ok_world (begin_run makes listens env stack s) s t refl e
  run_world made s t e = ended_world (serve makes listens s.controller) _ s t (λ c. refl) e
  run_world serves s t e =
      ok_world (if s.controller.serving then s else record s { run = run_over }) s t
        (if_both (λ t. t.world ≡ s.world) s.controller.serving s _ (λ e. refl) (λ e. refl)) e
  run_world run_over s t e = ok_world s s t refl e

  module _ (d : QosSendDaemon) (Q : Bytes → Type 0) where
    -- A run of the server whose requests are all as required.
    abbrev pub Does : World Db → World Db → Type 0
    Does w w' = (events : List Event) × Run env stack d events w w' × All (Asks Q) events

    Does-same : (w w' : World Db) → w' ≡ w → Does w w'
    Does-same w w' e = ([], subst (λ x. Run env stack d [] w x) (sym e) (at_rest w), tt)

    Does-once :
        (event : Event) (w w' : World Db)
        → Asks Q event
        → System.Step env stack d event w w'
        → Does w w'
    Does-once event w w' asked step =
        (event ∷ [], and_then event [] w w' w' step (at_rest w'), (asked, tt))

    Does-then : (w w₁ w' : World Db) → Does w w₁ → Does w₁ w' → Does w w'
    Does-then w w₁ w' (events, run, asked) (more, later, rest) =
        (events ++ more, go events w run, All-append (Asks Q) events more asked rest)
      where
        go :
            (es : List Event) (v : World Db)
            → Run env stack d es v w₁
            → Run env stack d (es ++ more) v w'
        go _ _ (at_rest _) = later
        go _ _ (and_then e es v v₁ _ step rest) =
            and_then e (es ++ more) v v₁ w' step (go es v₁ rest)

    -- The daemon's step.
    action-Does :
        (s t : Process Db) (q : QosThread) (r : Result (Unit {0} × World Db))
        → ((w : World Db) → r ≡ ok (tt, w) → Does s.world w)
        → (r >>= λ (u, w). ok (record s { qos = q; world = w })) ≡ ok t
        → Does s.world t.world
    action-Does s t q (ok (tt, w)) f e = subst (λ x. Does s.world x) (ground arith) (f w refl)
    action-Does s t q (fault x) f e = absurd (ground arith)

    sleep_world :
        (s : Process Db) (w : World Db)
        → sleep env s.controller.qos_send_daemon.check_interval s.world ≡ ok (tt, w)
        → record s.world { now = s.world.now + u32 s.controller.qos_send_daemon.check_interval } ≡ w
    unfolding sleep
    sleep_world s w r = ground arith

    qos-Does :
        (q : QosThread) (s t : Process Db)
        → FlagInv d s.controller
        → qos_at makes listens env stack q s ≡ ok t
        → Does s.world t.world
    qos-Does tests s t v e = elim (Bool-cases s.controller.qos_send_daemon.stop) [
      | inl told ↦ Does-same s.world t.world (let q = rw told at e in ground arith)
      | inr runs ↦
          action-Does s t sleeps (round env s.controller.qos_send_daemon s.world)
            (λ w r. Does-once rounded s.world w tt (
              round_step s.world w (
                subst (λ c. round env c s.world ≡ ok (tt, w)) (same_daemon d s.controller v runs)
                  r)))
            (else_lem s.controller.qos_send_daemon.stop _ _ (ok t) runs e)
    ]
    qos-Does sleeps s t v e =
        action-Does s t tests (sleep env s.controller.qos_send_daemon.check_interval s.world)
          (λ w r.
            subst (λ x. Does s.world x) (sleep_world s w r)
              (Does-once (waited (u32 s.controller.qos_send_daemon.check_interval)) s.world _ tt
                (wait_step (u32 s.controller.qos_send_daemon.check_interval) s.world)))
          e
    qos-Does qos_over s t v e = Does-same s.world t.world (ground arith)

    Step-Does :
        (s t : Process Db)
        → Inv d s
        → (step : Step makes listens env stack s t) → Asked makes listens env stack Q s t step
        → Does s.world t.world
    Step-Does s _ v (by_main t e) asked = Does-same s.world t.world (main_world s.main s t e)
    Step-Does s _ v (by_run t e) asked = Does-same s.world t.world (run_world s.run s t e)
    Step-Does s _ v (by_qos t e) asked = qos-Does s.qos s t v.flag_inv e
    Step-Does s _ v by_signal asked = Does-same s.world s.world refl
    Step-Does s _ v (by_client request w e r) asked =
        Does-once (called request) s.world w asked (call_step request s.world w r)
    Step-Does s _ v (by_time n) asked = Does-once (waited n) s.world _ tt (wait_step n s.world)
    Step-Does s _ v (by_pool pool) asked =
        Does-once (pooled pool) s.world _ tt (pool_step pool s.world)

    Reach-Does :
        (s t : Process Db)
        → d.stop ≡ false
        → Inv d s
        → (reach : Reach makes listens env stack s t) → AllAsked makes listens env stack Q s t reach
        → Does s.world t.world
    Reach-Does s _ running v here asked = Does-same s.world s.world refl
    Reach-Does s t running v (next {t = u} reach step) (before, asked) =
        Does-then s.world u.world t.world (Reach-Does s u running v reach before)
          (Step-Does u t (Reach-Inv makes listens env stack d s u running reach v) step asked)

  -- After an initialisation that has succeeded, whatever the threads of `main`, the clients and the
  -- signals have done, in whatever order: the world, with its database, pool, clock and sent messages,
  -- is one that a run of the server's events makes of the first one, where the daemon's rounds have
  -- the settings of the beginning, and the requests of the run have every property that all requests
  -- have that the threads have handled.
  pub Reach-Refines :
      (start : Bytes → ℤ → Result Bool) (config : Config) (Q : Bytes → Type 0) (s t : Process Db)
      → Begun start makes listens env stack config s t
      → (reach : Reach makes listens env stack s t) → AllAsked makes listens env stack Q s t reach
      → Does s.controller.qos_send_daemon Q s.world t.world
  Reach-Refines start config Q s t b reach asked =
      let (running, v) = Begun-Inv start makes listens env stack config s t b in
      Reach-Does s.controller.qos_send_daemon Q s t running v reach asked
