-- ===== src/Controller/Life.antt =====
-- The server's life from its configuration to its end.
use mathlib.Core.Path.{subst}
use short_message.Prelude.{
  ◌≡◌, refl, ◌≢◌, inl, inr, Bool-cases, if◌then◌else◌, Bool, true, false, Option, none, some, List,
  Bytes, arith,
}
use short_message.Prelude.Int.{ℤ, pos}
use short_message.Machine.{Result, ok, fault, no_object, thrown, Result-cases}
use short_message.Database.Setup.{DbSetting}
use short_message.Database.Setup
use short_message.Send
use short_message.Qos
use short_message.Send.{SendSetting}
use short_message.Qos.{QosSetting}
use short_message.Controller.{
  ServerSetting, Config, Controller, new_controller, init_server, init_thrift, init_qos, init_send,
  stop, destroy, init, make_server, serve, run, main, ended,
}

-- What no part of the initialisation changes.
abbrev Same : Controller → Bool × Controller → Type 0
Same c r =
    (r.1.server ≡ c.server)
    × (r.1.serving ≡ c.serving)
    × (r.1.stop ≡ c.stop)
    × (r.1.pool ≡ c.pool)
    × (c.qos_send_daemon.stop ≡ false → r.1.qos_send_daemon.stop ≡ false)

qos_runs : (s : QosSetting) (d : Qos.QosSendDaemon) → d.stop ≡ false → (Qos.init s d).1.stop ≡ false
unfolding Qos.init
qos_runs s d e = ground arith

init_server-Same : (s : ServerSetting) (c : Controller) → Same c (init_server s c)
init_server-Same s c = ground arith

init_thrift-Same : (o : Option ServerSetting) (c : Controller) → Same c (init_thrift o c)
init_thrift-Same none c = ground arith
init_thrift-Same (some s) c = init_server-Same s c

init_qos-Same :
    (config : Config) (o : Option QosSetting) (c : Controller) → Same c (init_qos config o c)
init_qos-Same config none c = ground arith
init_qos-Same config (some s) c = elim (Bool-cases (Qos.init s c.qos_send_daemon).0) [
  | inl e ↦ rw (e) (
      let (server, serving, halt, pool, runs) =
        init_thrift-Same config.thrift_server
          (record c { qos_send_daemon = (Qos.init s c.qos_send_daemon).1 }) in
      (server, serving, halt, pool, λ q. runs (qos_runs s c.qos_send_daemon q)))
  | inr e ↦ rw (e) (refl, refl, refl, refl, qos_runs s c.qos_send_daemon)
]

init_send-Same :
    (config : Config) (o : Option (List SendSetting)) (c : Controller)
    → Same c (init_send config o c)
init_send-Same config none c = ground arith
init_send-Same config (some s) c = elim (Bool-cases (Send.init s c.schedule_address).0) [
  | inl e ↦ rw (e) (
      init_qos-Same config config.qos
        (record c { schedule_address = (Send.init s c.schedule_address).1 }))
  | inr e ↦ rw (e) (refl, refl, refl, refl, λ q. q)
]

module _ (start : Bytes → ℤ → Result Bool) where
  -- What `init` leaves of a new controller: no server, a daemon that is not stopped, and a pool
  -- where it has succeeded.
  pub record Fresh (r : Bool × Controller) : Type 0 where
    pub server : r.1.server ≡ false
    pub serving : r.1.serving ≡ false
    pub stop : r.1.stop ≡ false
    pub pool : r.0 ≡ true → r.1.pool ≢ none
    pub runs : r.1.qos_send_daemon.stop ≡ false

  pool_set :
      (s : DbSetting) (done : Bool) (pool : Setup.PoolPointer)
      → Setup.init start s ≡ ok (done, pool)
      → done ≡ true
      → pool ≢ none
  unfolding Setup.init Setup.print_url
  pool_set s done pool e d = ground arith

  started-Fresh :
      (config : Config) (done : Bool) (pool : Setup.PoolPointer)
      → (done ≡ true → pool ≢ none)
      → Fresh (
          if done
          then init_send config config.send_helper (record new_controller { pool = pool })
          else (false, record new_controller { pool = pool }))
  started-Fresh config true pool h =
      let same = init_send-Same config config.send_helper (record new_controller { pool = pool }) in
      record {
        server = same.0;
        serving = same.1;
        stop = same.2;
        pool = λ e. rw (same.3) (h refl);
        runs = same.4 refl;
      }
  started-Fresh config false pool h = record {
    server = refl;
    serving = refl;
    stop = refl;
    pool = λ e. cc;
    runs = refl;
  }

  init_with-Fresh :
      (config : Config) (db : Option DbSetting) (r : Bool × Controller)
      → init start (record config { database = db }) new_controller ≡ ok r
      → Fresh r
  unfolding init
  init_with-Fresh config none r e = record {
    server = ground arith;
    serving = ground arith;
    stop = ground arith;
    pool = ground arith;
    runs = ground arith;
  }
  init_with-Fresh config (some s) r e = elim (Result-cases (Setup.init start s)) [
    | inl ((done, pool), q) ↦
        let next =
          (if done
            then init_send config config.send_helper (record new_controller { pool = pool })
            else (false, record new_controller { pool = pool })) in
        let e' : (ok next ≡ ok r) = rw q at e in
        let same : (next ≡ r) = ground arith in
        subst Fresh same (started-Fresh config done pool (pool_set s done pool q))
    | inr (x, q) ↦ absurd (ground arith)
  ]

  pub init-Fresh :
      (config : Config) (r : Bool × Controller) → init start config new_controller ≡ ok r → Fresh r
  init-Fresh config r e = init_with-Fresh config config.database r e

module _ (makes : ℤ → ℤ → ℤ → ℤ → Bool) (listens : ℤ → Bool) where
  -- What becomes of the process whose controller has been initialised.
  abbrev pub outcome : Controller → Result ℤ
  outcome c =
      if makes c.port c.write_timeout c.read_timeout c.thread_cnt
      then (if listens c.port then ok (pos 0) else fault thrown)
      else fault no_object

  ended_lem :
      (done : Bool) (c : Controller)
      → c.server ≡ false
      → c.stop ≡ false
      → (done ≡ true → c.pool ≢ none)
      → ended makes listens (done, c) ≡ (if done then outcome c else fault no_object)
  unfolding stop destroy run make_server serve Setup.destroy
  ended_lem false c server halt pool = ground arith
  ended_lem true c server halt pool = ground (arith, pool refl)

module _ (start : Bytes → ℤ → Result Bool) (makes : ℤ → ℤ → ℤ → ℤ → Bool) (listens : ℤ → Bool) where
  -- `main` in terms of its parts. Where the initialisation fails, the controller is destroyed
  -- without a server, and `Stop` uses the pointer to it: `main` never returns its -1. Where it
  -- succeeds, and the server can be made and can listen at its port before the process is told to
  -- end, `main` returns 0. If the server cannot be made, the pointer is used in the same way when the
  -- process is told to end; and if it cannot listen, an exception that nothing catches ends the process.
  pub main_lem :
      (config : Config) (done : Bool) (c : Controller)
      → init start config new_controller ≡ ok (done, c)
      → main start makes listens config
        ≡ (if done then outcome makes listens c else fault no_object)
  unfolding main
  main_lem config done c e =
      let fresh = init-Fresh start config (done, c) e in
      rw (e) (ended_lem makes listens done c fresh.server fresh.stop fresh.pool)
