-- ===== src/Controller.antt =====
-- src/workmanager/controller.cpp and `main` of src/main.cpp: the server's configuration, its start and
-- its end. What libzdb and thrift do with the settings is a parameter, and the logger is left
-- out; the signals that end the wait of `main` are in Controller.Threads.
pub mod Life
pub mod Threads
use short_message.Prelude.{
  ℕ, Bool, true, false, not, Option, none, some, List, [], Bytes, if◌then◌else◌,
}
use short_message.Prelude.Int.{ℤ, pos}
use short_message.Machine.{Result, ok, fault, no_object, thrown, ◌>>=◌}
use short_message.World.{Address}
use short_message.Database.Setup.{DbSetting, PoolPointer}
use short_message.Database.Setup
use short_message.Send.{SendSetting}
use short_message.Send
use short_message.Qos.{QosSetting, QosSendDaemon, new_daemon}
use short_message.Qos

-- The setting "ThriftServer"; `none` is a `lookupValue` that returns false.
pub record ServerSetting : Type 0 where
  pub port : Option ℤ
  pub write_timeout : Option ℤ
  pub read_timeout : Option ℤ
  pub thread_cnt : Option ℤ

-- conf.cfg; for a group that is missing, `lookup` throws.
pub record Config : Type 0 where
  pub database : Option DbSetting
  pub send_helper : Option (List SendSetting)
  pub qos : Option QosSetting
  pub thrift_server : Option ServerSetting

-- The object, with SendHelper's table. `server` tells whether `server_` points at a server, and
-- `serving` whether that listens and has not been stopped since.
pub record Controller : Type 0 where
  pub pool : PoolPointer
  pub schedule_address : List (ℤ × Address)
  pub qos_send_daemon : QosSendDaemon
  pub port : ℤ
  pub write_timeout : ℤ
  pub read_timeout : ℤ
  pub thread_cnt : ℤ
  pub server : Bool
  pub serving : Bool
  pub stop : Bool

abbrev pub new_controller : Controller
new_controller = record {
  pool = none;
  schedule_address = [];
  qos_send_daemon = new_daemon;
  port = pos 0;
  write_timeout = pos 0;
  read_timeout = pos 0;
  thread_cnt = pos 0;
  server = false;
  serving = false;
  stop = false;
}

-- The reads of "ThriftServer"; what is found before a value is missing stays.
abbrev pub init_server : ServerSetting → Controller → Bool × Controller
init_server s c = elim s.port [
  | none ↦ (false, c)
  | some port ↦ elim s.write_timeout [
    | none ↦ (false, record c { port = port })
    | some w ↦ elim s.read_timeout [
      | none ↦ (false, record c { port = port; write_timeout = w })
      | some r ↦ elim s.thread_cnt [
        | none ↦ (false, record c { port = port; write_timeout = w; read_timeout = r })
        | some t ↦
            (true, record c { port = port; write_timeout = w; read_timeout = r; thread_cnt = t })
      ]
    ]
  ]
]

abbrev pub init_thrift : Option ServerSetting → Controller → Bool × Controller
init_thrift none c = (false, c)
init_thrift (some s) c = init_server s c

abbrev pub init_qos : Config → Option QosSetting → Controller → Bool × Controller
init_qos config none c = (false, c)
init_qos config (some s) c =
    let (done, d) = Qos.init s c.qos_send_daemon in
    let next = init_thrift config.thrift_server (record c { qos_send_daemon = d }) in
    if done then next else (false, record c { qos_send_daemon = d })

abbrev pub init_send : Config → Option (List SendSetting) → Controller → Bool × Controller
init_send config none c = (false, c)
init_send config (some s) c =
    let (done, table) = Send.init s c.schedule_address in
    let next = init_qos config config.qos (record c { schedule_address = table }) in
    if done then next else (false, record c { schedule_address = table })

-- `server_->stop()` for a pointer that was never set.
unfoldable pub stop : Controller → Result Controller
stop c =
    if c.server
    then ok
        (record c { stop = true; serving = false; qos_send_daemon = Qos.stop c.qos_send_daemon })
    else fault no_object

-- `~Controller`, and then the destructor of its member `database_`.
unfoldable pub destroy : Controller → Result (Unit {0})
destroy c = do c' ← (if c.stop then ok c else stop c); Setup.destroy c'.pool

-- What ConnectionPool_start does.
module _ (start : Bytes → ℤ → Result Bool) where
  unfoldable pub init : Config → Controller → Result (Bool × Controller)
  init config c = elim config.database [
    | none ↦ ok (false, c)
    | some s ↦ do
      (done, pool) ← Setup.init start s
      (let next = init_send config config.send_helper (record c { pool = pool }) in
          ok (if done then next else (false, record c { pool = pool })))
  ]

-- Whether the server's objects and threads can be made, and whether the server can listen at a port,
-- which thrift tries in `serve`.
module _ (makes : ℤ → ℤ → ℤ → ℤ → Bool) (listens : ℤ → Bool) where
  -- `Run` up to `server_->serve()`; an exception in it is caught, and leaves `server_` unset.
  unfoldable pub make_server : Controller → Controller
  make_server c =
      if makes c.port c.write_timeout c.read_timeout c.thread_cnt
      then record c { server = true }
      else c

  -- `server_->serve()` up to its loop, which ends when the server is stopped. Nothing catches what
  -- it throws. A `stop()` before it leaves no trace in the server.
  unfoldable pub serve : Controller → Result Controller
  serve c = if listens c.port then ok (record c { serving = true }) else fault thrown

  -- `Run`: it returns where the server cannot be made.
  unfoldable pub run : Controller → Result Controller
  run c =
      let made = make_server c in let served = serve made in if made.server then served else ok made

  -- From the controller on, `main` returns -1 where the initialisation fails; else the threads run until a signal comes.
  abbrev pub ended : Bool × Controller → Result ℤ
  ended (false, c) = do gone ← destroy c; ok (ℤ.negsuc 0)
  ended (true, c) = do running ← run c; c' ← stop running; gone ← destroy c'; ok (pos 0)

module _ (start : Bytes → ℤ → Result Bool) (makes : ℤ → ℤ → ℤ → ℤ → Bool) (listens : ℤ → Bool) where
  unfoldable pub main : Config → Result ℤ
  main config = do r ← init start config new_controller; ended makes listens r

  -- The whole of it. `Log.Init` succeeds, since its argument is not NULL; `none` is a `readFile` that
  -- throws, and nothing catches that.
  abbrev pub program : Option Config → Result ℤ
  program none = fault thrown
  program (some config) = main config
