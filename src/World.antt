-- ===== src/World.antt =====
-- What a handler of the server works on: the database, the connection pool, the send helper's table,
-- and the messages that have been handed to access servers. A handler is an action on it.
pub mod Connections
pub mod Frame
pub mod Stable
use short_message.Prelude.{ℕ, ◌≡◌, ◌-◌, ◌+◌, Bool, true, false, List, [], ◌∷◌, ◌++◌, Bytes}
use short_message.Prelude.Int.{ℤ}
use short_message.Machine.{Result, ok, fault}
use short_message.Database.Sql.{Server}
use short_message.Database.Pool.{get_connection}

-- struct Address of src/workmanager/send_helper.h
pub record Address : Type 0 where
  pub ip : Bytes
  pub port : ℤ

-- What SendHelper sets of the class AccessMessage, src/thrift/im_types.h.
pub record AccessMessage : Type 0 where
  pub uid : ℤ
  pub sate_id : ℤ
  pub beam_id : ℤ
  pub level : ℤ
  pub content : Bytes

-- The database server, and thrift's transport: whether a socket to an address opens, and whether
-- the call of LogicToAccess returns there.
pub record Env : Type 1 where
  pub server : Server
  pub open server use *
  pub opens : Address → Bool
  pub answers : Address → AccessMessage → Bool

-- `pool` holds the pool's next answers, `held` counts the connections that are not given back, `now`
-- is what time(NULL) returns during a handler, and `sent` is every call of LogicToAccess, in order.
pub record World (Db : Type 0) : Type 0 where
  pub db : Db
  pub pool : List Bool
  pub held : ℕ
  pub now : ℕ
  pub schedule_address : List (ℤ × Address)
  pub sent : List (Address × AccessMessage)

abbrev pub M : Type 0 → Type 0 → Type 0
M Db A = World Db → Result (A × World Db)

module _ {Db : Type 0} where
  unfoldable pub pure : {A : Type 0} → A → M Db A
  pure a w = ok (a, w)

  infixl 5 ◌>>=◌ ◌>>◌
  unfoldable pub ◌>>=◌ : {A B : Type 0} → M Db A → (A → M Db B) → M Db B
  ◌>>=◌ m f w = elim (m w) [ ok (a, w') ↦ f a w' | fault e ↦ fault e ]

  abbrev pub ◌>>◌ : {A B : Type 0} → M Db A → M Db B → M Db B
  m >> k = m >>= λ _. k

  lifted : {A : Type 0} → Result A → World Db → Result (A × World Db)
  lifted (ok a) w = ok (a, w)
  lifted (fault e) w = fault e

  -- A computation that may fault and touches no state.
  unfoldable pub lift : {A : Type 0} → Result A → M Db A
  unfolding lifted
  lift r w = lifted r w

  unfoldable pub query : {A : Type 0} → (Db → A) → M Db A
  query f w = ok (f w.db, w)

  unfoldable pub now : M Db ℕ
  now w = ok (w.now, w)

  -- SendHelper's table schedule_address_
  unfoldable pub schedule : M Db (List (ℤ × Address))
  schedule w = ok (w.schedule_address, w)

  unfoldable pub update : {A : Type 0} → (Db → A × Db) → M Db A
  update f w = let (a, db') = f w.db in ok (a, record w { db = db' })

  unfoldable pub updated : {A : Type 0} → World Db → Result (A × Db) → Result (A × World Db)
  updated w (ok (a, db')) = ok (a, record w { db = db' })
  updated w (fault e) = fault e

  -- A change of the database that may fault.
  unfoldable pub update_or_fault : {A : Type 0} → (Db → Result (A × Db)) → M Db A
  unfolding updated
  update_or_fault f w = updated w (f w.db)

  took : World Db → Result (Bool × List Bool) → Result (Bool × World Db)
  took w (ok (true, rest)) = ok (true, record w { pool = rest; held = w.held + 1 })
  took w (ok (false, rest)) = ok (false, record w { pool = rest })
  took w (fault e) = fault e

  -- `database_->GetConnection()`; the flag tells whether the pointer is not NULL.
  unfoldable pub connect : M Db Bool
  unfolding took
  connect w = took w (get_connection w.pool)

  -- `Connection_close(conn)` gives the connection back to the pool.
  unfoldable pub close : M Db (Unit {0})
  close w = ok (tt, record w { held = w.held - 1 })

  -- `Connection_clear(conn)` drops its prepared statements and results, and gives nothing back.
  unfoldable pub clear : M Db (Unit {0})
  clear w = ok (tt, w)

  -- One call of LogicToAccess.
  unfoldable pub transmit : Address → AccessMessage → M Db (Unit {0})
  transmit a m w = ok (tt, record w { sent = w.sent ++ (a, m) ∷ [] })

  -- An action on a world; to unfold it is to unfold all that actions are made of.
  unfoldable pub run : {A : Type 0} → M Db A → World Db → Result (A × World Db)
  unfolding pure ◌>>=◌ lift query now schedule update update_or_fault connect close clear transmit
  run m w = m w

  -- What holds of the value and the world that an action ends with, if it does not fault.
  abbrev pub After : {A : Type 0} → Result (A × World Db) → (A → World Db → Type 0) → Type 0
  After (ok (a, w)) P = P a w
  After (fault e) P = Unit {0}

  -- An action that ends, and does not fault.
  abbrev pub Total : {A : Type 0} → Result (A × World Db) → Type 0
  Total {A} r = (a : A) × (w : World Db) × (r ≡ ok (a, w))
