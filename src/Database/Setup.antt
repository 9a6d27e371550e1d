-- ===== src/Database/Setup.antt =====
-- `Database::Init` and the destructor, src/tools/database.cpp. The pool of libzdb is a parameter: what
-- ConnectionPool_start does with a URL.
use short_message.Prelude.{Bool, false, Option, none, some, ◌++◌, Bytes, length, ltb, if◌then◌else◌}
use short_message.Prelude.Int.{ℤ}
use short_message.Memory.{text}
use short_message.Machine.{Result, ok, fault, out_of_bounds, no_object, ◌>>=◌}

-- The setting "Database"; `none` is a `lookupValue` that returns false.
pub record DbSetting : Type 0 where
  pub host : Option Bytes
  pub user : Option Bytes
  pub password : Option Bytes
  pub db : Option Bytes
  pub max_size : Option ℤ

-- The connection data that are found.
pub record DbAccess : Type 0 where
  pub host : Bytes
  pub user : Bytes
  pub password : Bytes
  pub db : Bytes
  pub max_size : ℤ

-- The pointers `mysql_url_` and `pool_`, which the constructor leaves as they are: the pool's URL and
-- its size, or `none` before they are set.
abbrev pub PoolPointer : Type 0
PoolPointer = Option (Bytes × ℤ)

abbrev pub read_setting : DbSetting → Option DbAccess
read_setting s = elim s.host [
  | none ↦ none
  | some host ↦ elim s.user [
    | none ↦ none
    | some user ↦ elim s.password [
      | none ↦ none
      | some password ↦ elim s.db [
        | none ↦ none
        | some db ↦ elim s.max_size [
          | none ↦ none
          | some n ↦
              some (record { host = host; user = user; password = password; db = db; max_size = n })
        ]
      ]
    ]
  ]
]

abbrev pub url_text : DbAccess → Bytes
url_text a =
    text "mysql://"
    ++ a.host
    ++ text "/"
    ++ a.db
    ++ text "?user="
    ++ a.user
    ++ text "&password="
    ++ a.password

-- `sprintf` into `char url[1024]`, which also takes the NUL.
unfoldable pub print_url : DbAccess → Result Bytes
print_url a = if ltb (length (url_text a)) 1024 then ok (url_text a) else fault out_of_bounds

module _ (start : Bytes → ℤ → Result Bool) where
  -- From the URL on: whether the pool starts, or a C++ exception is caught.
  abbrev pub start_pool : DbAccess → Result (Bool × PoolPointer)
  start_pool a = do
    url ← print_url a
    started ← start url a.max_size
    ok (started, some (url, a.max_size))

  unfoldable pub init : DbSetting → Result (Bool × PoolPointer)
  init s = elim (read_setting s) [ none ↦ ok (false, none) | some a ↦ start_pool a ]

-- `~Database` frees the pool and the URL.
unfoldable pub destroy : PoolPointer → Result (Unit {0})
destroy none = fault no_object
destroy (some p) = ok tt
