-- ===== src/Controller/Threads/Places.antt =====
-- What holds where the threads of `main` stand, src/main.cpp, and what their steps keep of it.

use short_message.Prelude.{◌≡◌, ◌≢◌, ◌⊎◌, inl, inr, refl, true, false, none, arith}
use short_message.Prelude.Int.{pos}
use short_message.Machine.{ok}
use short_message.Database.Setup
use short_message.Qos.{QosSendDaemon, round, sleep}
use short_message.Qos
use short_message.Controller.{Controller, stop, destroy}
use short_message.Controller.Threads.{
  MainThread, waits, joins_run, joins_qos, returns, RunThread, begins, made, serves, run_over,
  QosThread, qos_over, Process,
}

-- What holds where a thread of `main` stands; `c` is the controller, and `d` the daemon's settings.
abbrev pub MainInv : MainThread → RunThread → QosThread → Controller → Type 0
MainInv waits r q c = c.stop ≡ false
MainInv joins_run r q c = (c.stop ≡ true) × (c.server ≡ true)
MainInv joins_qos r q c = (c.stop ≡ true) × (c.server ≡ true) × (r ≡ run_over)
MainInv (returns v) r q c =
    (c.stop ≡ true) × (c.server ≡ true) × (r ≡ run_over) × (q ≡ qos_over) × (v ≡ pos 0)

abbrev pub RunInv : RunThread → Controller → Type 0
RunInv begins c = (c.server ≡ false) × (c.serving ≡ false) × (c.stop ≡ false)
RunInv made c = (c.server ≡ true) × (c.serving ≡ false)
RunInv serves c = c.server ≡ true
RunInv run_over c = c.serving ≡ false

-- The daemon is stopped exactly when `Stop` has run.
abbrev pub FlagInv : QosSendDaemon → Controller → Type 0
FlagInv d c =
    (c.pool ≢ none)
    × (((c.stop ≡ false) × (c.qos_send_daemon ≡ d))
        ⊎ ((c.stop ≡ true) × (c.qos_send_daemon ≡ Qos.stop d)))

-- The thread of the daemon that goes on.
pub MainInv-goes_on :
    (m : MainThread) (r : RunThread) (q q' : QosThread) (c : Controller)
    → q ≢ qos_over
    → MainInv m r q c
    → MainInv m r q' c
MainInv-goes_on waits r q q' c ne v = v
MainInv-goes_on joins_run r q q' c ne v = v
MainInv-goes_on joins_qos r q q' c ne v = v
MainInv-goes_on (returns n) r q q' c ne (halt, up, over, ended, z) = absurd (ne ended)

pub record Inv {Db : Type 0} (d : QosSendDaemon) (s : Process Db) : Type 0 where
  pub main_inv : MainInv s.main s.run s.qos s.controller
  pub run_inv : RunInv s.run s.controller
  pub flag_inv : FlagInv d s.controller
  pub ends : s.qos ≡ qos_over → s.controller.stop ≡ true

-- `Stop` where there is a server, and the end of the controller after it.
abbrev pub stopped : Controller → Controller
stopped c = record c { stop = true; serving = false; qos_send_daemon = Qos.stop c.qos_send_daemon }

pub stop_lem : (c : Controller) → c.server ≡ true → stop c ≡ ok (stopped c)
unfolding stop
stop_lem c e = rw e refl

pub destroy_lem : (c : Controller) → c.stop ≡ true → c.pool ≢ none → destroy c ≡ ok tt
unfolding destroy Setup.destroy
destroy_lem c e pool = ground (arith, pool)

pub RunInv-stopped :
    (r : RunThread) (c : Controller) → c.server ≡ true → RunInv r c → RunInv r (stopped c)
RunInv-stopped begins c up (down, off, halt) = absurd (let q = rw down at up in ground arith)
RunInv-stopped made c up (v, off) = (v, refl)
RunInv-stopped serves c up v = v
RunInv-stopped run_over c up v = refl

pub FlagInv-stopped :
    {d : QosSendDaemon} (c : Controller) → c.stop ≡ false → FlagInv d c → FlagInv d (stopped c)
FlagInv-stopped c e (pool, inl (halt, same)) = (pool, inr (refl, rw same refl))
FlagInv-stopped c e (pool, inr (halt, same)) = absurd (let q = rw e at halt in ground arith)

pub FlagInv-server :
    {d : QosSendDaemon} (c : Controller)
    → c.stop ≡ false
    → FlagInv d c
    → FlagInv d (record c { server = true })
FlagInv-server c e (pool, inl same) = (pool, inl same)
FlagInv-server c e (pool, inr (halt, same)) = absurd (let q = rw e at halt in ground arith)

-- `main` does not wait for a thread that has ended while it has only made its server.
pub MainInv-served :
    (m : MainThread) (r r' : RunThread) (q : QosThread) (c : Controller)
    → r ≢ run_over
    → MainInv m r q c
    → MainInv m r' q (record c { serving = true })
MainInv-served waits r r' q c ne v = v
MainInv-served joins_run r r' q c ne v = v
MainInv-served joins_qos r r' q c ne (halt, up, over) = absurd (ne over)
MainInv-served (returns n) r r' q c ne (halt, up, over, ended, z) = absurd (ne over)

-- Before the server is made `main` still waits, and after `serve` it may go on.
pub MainInv-begun :
    (m : MainThread) (r r' : RunThread) (q : QosThread) (c c' : Controller)
    → c.server ≡ false
    → c'.stop ≡ false
    → MainInv m r q c
    → MainInv m r' q c'
MainInv-begun waits r r' q c c' down e v = e
MainInv-begun joins_run r r' q c c' down e (halt, up) =
    absurd (let x = rw down at up in ground arith)
MainInv-begun joins_qos r r' q c c' down e (halt, up, over) =
    absurd (let x = rw down at up in ground arith)
MainInv-begun (returns n) r r' q c c' down e (halt, up, over, ended, z) =
    absurd (let x = rw down at up in ground arith)

pub MainInv-over :
    (m : MainThread) (r : RunThread) (q : QosThread) (c : Controller)
    → MainInv m r q c
    → MainInv m run_over q c
MainInv-over waits r q c v = v
MainInv-over joins_run r q c v = v
MainInv-over joins_qos r q c (halt, up, over) = (halt, up, refl)
MainInv-over (returns n) r q c (halt, up, over, ended, z) = (halt, up, refl, ended, z)
