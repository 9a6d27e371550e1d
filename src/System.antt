-- ===== src/System.antt =====
-- The server as a whole: the calls of the handler in src/workmanager/LogicInterfaceHandler.cpp and the
-- rounds of src/tools/qos_send_daemon.cpp on one database. A call and a round run to their end before the
-- next event; between two events the clock and the pool change on their own.
use mathlib.Core.List.{Mem}
use short_message.Prelude.{
  ℕ, ◌≡◌, ◌∙◌, sym, append-nil, false, ◌+◌, Bool, List, [], ◌∷◌, Bytes, All,
}
use short_message.Machine.{ok}
use short_message.Database.Sql.{CacheRow}
use short_message.Database.Laws.{IsMySql}
use short_message.Database.Kept.{letter, letters}
use short_message.World.{Env, World}
use short_message.Qos.{QosSendDaemon, round}
use short_message.Qos.Rounds.{round_keeps_messages}
use short_message.Handler.{Uninitialised, access_to_logic}
use short_message.Handler.Kept.{acknowledges, access_to_logic-Kept}
use short_message.Handler.Stored.{Begins, access_to_logic-Begins}

pub data Event : Type 0 where
  -- an access server calls AccessToLogic
  called : Bytes → Event
  -- the loop of the QoS daemon makes a round
  rounded : Event
  -- time passes
  waited : ℕ → Event
  -- connections go into the pool or out of it: its next answers are these
  pooled : List Bool → Event

module _ (env : Env) (stack : Uninitialised) (daemon : QosSendDaemon) where
  open env use {server.{Db}}

  -- One event, from a world to the next; a call or a round that faults leads to none.
  pub data Step : Event → World Db → World Db → Type 0 where
    call_step :
        (request : Bytes) (w w' : World Db)
        → access_to_logic env stack request w ≡ ok (tt, w')
        → Step (called request) w w'
    round_step : (w w' : World Db) → round env daemon w ≡ ok (tt, w') → Step rounded w w'
    wait_step : (n : ℕ) (w : World Db) → Step (waited n) w (record w { now = w.now + n })
    pool_step : (pool : List Bool) (w : World Db) → Step (pooled pool) w (record w { pool = pool })

  -- A run of the server, with its events in order.
  pub data Run : List Event → World Db → World Db → Type 0 where
    at_rest : (w : World Db) → Run [] w w
    and_then :
        (event : Event) (events : List Event) (w w₁ w' : World Db)
        → Step event w w₁
        → Run events w₁ w'
        → Run (event ∷ events) w w'

-- No event is the receipt of type 0x60 that acknowledges the row's message.
abbrev pub IsSpared : CacheRow → Event → Type 0
IsSpared row (called request) = acknowledges request row ≡ false
IsSpared row event = Unit {0}

module _ (env : Env) (sql : IsMySql env.server) (stack : Uninitialised) (daemon : QosSendDaemon)
    (row : CacheRow) where
  open env use {server.{Db}}

  -- The message of the row is in message_cache, whatever its retry columns are.
  abbrev pub IsCached : World Db → Type 0
  IsCached w = Mem (letter row) (letters (sql.cache w.db))

  Step-IsCached :
      (event : Event) (w w' : World Db)
      → IsSpared row event
      → Step env stack daemon event w w'
      → IsCached w
      → IsCached w'
  Step-IsCached _ _ _ spared (call_step request w w' ends) kept =
      rw ends at ((access_to_logic-Kept env sql row stack request spared).at w kept)
  Step-IsCached _ _ _ spared (round_step w w' ends) kept =
      let same = rw ends at (round_keeps_messages env sql daemon w) in rw same.cached kept
  Step-IsCached _ _ _ spared (wait_step n w) kept = kept
  Step-IsCached _ _ _ spared (pool_step pool w) kept = kept

  -- No cached message is lost: in every run of the server, whatever requests, rounds of the QoS
  -- daemon, waits and changes of the pool it is made of, a message that is in message_cache at the
  -- beginning is there at the end, unless one of the requests is the receipt of type 0x60 that
  -- acknowledges it.
  pub Run-IsCached :
      (events : List Event) (w w' : World Db)
      → Run env stack daemon events w w'
      → All (IsSpared row) events
      → IsCached w
      → IsCached w'
  Run-IsCached _ _ _ (at_rest w) spared kept = kept
  Run-IsCached _ _ _ (and_then event events w w₁ w' step run) (spared, later) kept =
      Run-IsCached events w₁ w' run later (Step-IsCached event w w₁ spared step kept)

module _ (env : Env) (sql : IsMySql env.server) (stack : Uninitialised)
    (daemon : QosSendDaemon) where
  open env use {server.{Db}}

  -- The messages that `w'` has in message_store begin with those that `w` has.
  abbrev pub Extends : World Db → World Db → Type 0
  Extends w w' = Begins env sql (sql.store w.db) w'.db

  Step-Extends :
      (event : Event) (w₀ w w' : World Db)
      → Step env stack daemon event w w'
      → Extends w₀ w
      → Extends w₀ w'
  Step-Extends _ w₀ _ _ (call_step request w w' ends) p =
      rw ends at ((access_to_logic-Begins env sql (sql.store w₀.db) stack request).at w p)
  Step-Extends _ w₀ _ _ (round_step w w' ends) (later, p) =
      let same = rw ends at (round_keeps_messages env sql daemon w) in (later, same.stored ∙ p)
  Step-Extends _ w₀ _ _ (wait_step n w) p = p
  Step-Extends _ w₀ _ _ (pool_step pool w) p = p

  Run-Extends :
      (events : List Event) (w₀ w w' : World Db)
      → Run env stack daemon events w w'
      → Extends w₀ w
      → Extends w₀ w'
  Run-Extends _ w₀ _ _ (at_rest w) p = p
  Run-Extends _ w₀ _ _ (and_then event events w w₁ w' step run) p =
      Run-Extends events w₀ w₁ w' run (Step-Extends event w₀ w w₁ step p)

  -- The store only grows: in every run of the server, whatever its events are, the rows that
  -- message_store has at the beginning are there at the end, in the same order, before all rows that
  -- have been added.
  pub Run-Begins :
      (events : List Event) (w w' : World Db)
      → Run env stack daemon events w w'
      → Begins env sql (sql.store w.db) w'.db
  Run-Begins events w w' run = Run-Extends events w w w' run ([], sym (append-nil (sql.store w.db)))
