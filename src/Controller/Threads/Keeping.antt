-- ===== src/Controller/Threads/Keeping.antt =====
-- What the threads of `main`, src/main.cpp, leave in the database.

use short_message.Prelude.{All, ◌≡◌, Bool, false, List, [], ◌∷◌, Bytes}
use short_message.Prelude.Int.{ℤ}
use short_message.Machine.{Result}
use short_message.World.{Env}
use short_message.Handler.{Uninitialised}
use short_message.Database.Sql.{CacheRow}
use short_message.Database.Laws.{IsMySql}
use short_message.Handler.Kept.{acknowledges}
use short_message.Handler.Stored.{Begins}
use short_message.System.{
  IsSpared, IsCached, Run-IsCached, Run-Begins, Event, called, rounded, waited, pooled,
}
use short_message.Controller.{Config}
use short_message.Controller.Threads.{AllAsked, Process, Reach}
use short_message.Controller.Threads.Safety.{Begun}
use short_message.Controller.Threads.Runs.{Asks, Reach-Refines}

Asks-IsSpared :
    (row : CacheRow) (events : List Event)
    → All (Asks (λ request. acknowledges request row ≡ false)) events
    → All (IsSpared row) events
Asks-IsSpared row [] h = tt
Asks-IsSpared row (called request ∷ events) (x, h) = (x, Asks-IsSpared row events h)
Asks-IsSpared row (rounded ∷ events) (x, h) = (x, Asks-IsSpared row events h)
Asks-IsSpared row (waited n ∷ events) (x, h) = (x, Asks-IsSpared row events h)
Asks-IsSpared row (pooled pool ∷ events) (x, h) = (x, Asks-IsSpared row events h)

module _ (makes : ℤ → ℤ → ℤ → ℤ → Bool) (listens : ℤ → Bool) (env : Env) (sql : IsMySql env.server)
    (stack : Uninitialised) where
  open env use {server.{Db}}

  -- No cached message is lost in the life of the process: after an initialisation that has succeeded,
  -- whatever the threads of `main`, the clients and the signals do, in whatever order, if none of the
  -- requests that are handled is the receipt of type 0x60 that acknowledges the message, and it is in
  -- message_cache at the beginning, then it is there at the end. And the messages that message_store
  -- has at the end begin with those that it has had.
  pub Reach-IsCached :
      (start : Bytes → ℤ → Result Bool) (config : Config) (row : CacheRow) (s t : Process Db)
      → Begun start makes listens env stack config s t
      → (reach : Reach makes listens env stack s t)
      → AllAsked makes listens env stack (λ request. acknowledges request row ≡ false) s t reach
      → IsCached env sql stack s.controller.qos_send_daemon row s.world
      → IsCached env sql stack s.controller.qos_send_daemon row t.world
        × Begins env sql (sql.store s.world.db) t.world.db
  Reach-IsCached start config row s t b reach asked kept =
      let (events, run, spared) =
        Reach-Refines makes listens env stack start config _ s t b reach asked in
      let d = s.controller.qos_send_daemon in
      (
        Run-IsCached env sql stack d row events s.world t.world run
            (Asks-IsSpared row events spared) kept,
        Run-Begins env sql stack d events s.world t.world run,
      )
