-- ===== src/Tests/Tables.antt =====
-- MySQL's tables as lists: the laws of Database/Laws.antt can be met.
use mathlib.Core.List.{Mem, mem-cons_self, mem-cons_of_mem}
use short_message.Prelude.{
  ℕ, ◌≡◌, ◌&&◌, Bool, true, Option, some, List, [], ◌∷◌, ◌++◌, leb, if◌then◌else◌, All, length,
  Bool-cases, inl, inr, arith,
}
use short_message.Prelude.Int.{ℤ, pos, int_eq, int_lt}
use short_message.Float.{gt}
use short_message.Database.Sql.{
  Server, StoreRow, NewCacheRow, CacheRow, Statement, update_sate_cover, insert_store, insert_cache,
  delete_cache, update_cache,
}
use short_message.Database.Laws.{IsMySql, matches, without, retried}
use short_message.World.{Address, Env, World}

pub record Tables : Type 0 where
  pub cache : List CacheRow
  pub store : List StoreRow
  pub covers : List (ℤ × List ℕ)
  pub users : List ℤ

abbrev set_cover : ℤ → List ℕ → List (ℤ × List ℕ) → List (ℤ × List ℕ)
set_cover u snrs [] = []
set_cover u snrs ((v, old) ∷ covers) =
    (v, if int_eq v u then snrs else old) ∷ set_cover u snrs covers

abbrev covers_of : ℤ → List (ℤ × List ℕ) → List (List ℕ)
covers_of u [] = []
covers_of u ((v, snrs) ∷ covers) =
    let rest = covers_of u covers in if int_eq v u then snrs ∷ rest else rest

abbrev users_of : ℤ → List ℤ → List ℤ
users_of u [] = []
users_of u (v ∷ users) = let rest = users_of u users in if int_eq v u then v ∷ rest else rest

abbrev select : (CacheRow → Bool) → List CacheRow → List CacheRow
select p [] = []
select p (r ∷ rows) = let rest = select p rows in if p r then r ∷ rest else rest

abbrev execute : Statement → Tables → Option Tables
execute (update_sate_cover snrs u) t = some (record t { covers = set_cover (pos u) snrs t.covers })
execute (insert_store r) t = some (record t { store = t.store ++ r ∷ [] })
execute (insert_cache r) t =
    some (record t { cache = t.cache ++ record { given = r; retry_num = pos 0 } ∷ [] })
execute (delete_cache f u n) t = some (record t { cache = without f u n t.cache })
execute (update_cache k time f u n) t = some (record t { cache = retried k time f u n t.cache })

-- A column holds the float that was written to it.
abbrev pub memory : Server
memory = record {
  Db = Tables;
  Double = ℕ;
  is_positive = λ d. gt d 0;
  to_float = λ d. d;
  execute = execute;
  select_sate_cover = λ u t. some (covers_of u t.covers);
  count_cache = λ u t. some (pos (length (select (λ r. int_eq r.to_user u) t.cache)) ∷ []);
  select_user = λ u t. some (users_of u t.users);
  select_message = λ f u n t. some (select (matches f u n) t.cache);
  select_due =
      λ k time t. some (select (λ r. int_lt r.retry_num k && leb r.retry_time time) t.cache);
}

All-weaken :
    (p : CacheRow → Bool) (r : CacheRow) (rows found : List CacheRow)
    → All (λ x. Mem x rows × (p x ≡ true)) found
    → All (λ x. Mem x (r ∷ rows) × (p x ≡ true)) found
All-weaken p r rows [] h = tt
All-weaken p r rows (x ∷ found) h =
    ((mem-cons_of_mem r h.0.0, h.0.1), All-weaken p r rows found h.1)

select-All :
    (p : CacheRow → Bool) (rows : List CacheRow)
    → All (λ x. Mem x rows × (p x ≡ true)) (select p rows)
select-All p [] = tt
select-All p (r ∷ rows) = elim (Bool-cases (p r)) [
  | inl hit ↦ rw hit ((mem-cons_self, hit), All-weaken p r rows (select p rows) (select-All p rows))
  | inr miss ↦ rw miss (All-weaken p r rows (select p rows) (select-All p rows))
]

pub update_sate_cover_law :
    (snrs : List ℕ) (u : ℕ) (d e : Tables)
    → execute (update_sate_cover snrs u) d ≡ some e
    → (e.cache ≡ d.cache) × (e.store ≡ d.store)
update_sate_cover_law snrs u d e h = ground arith

pub insert_cache_law :
    (r : NewCacheRow) (d e : Tables)
    → execute (insert_cache r) d ≡ some e
    → (e.cache ≡ d.cache ++ record { given = r; retry_num = pos 0 } ∷ []) × (e.store ≡ d.store)
insert_cache_law r d e h = ground arith

pub insert_store_law :
    (r : StoreRow) (d e : Tables)
    → execute (insert_store r) d ≡ some e
    → (e.store ≡ d.store ++ r ∷ []) × (e.cache ≡ d.cache)
insert_store_law r d e h = ground arith

pub delete_cache_law :
    (f t n : ℤ) (d e : Tables)
    → execute (delete_cache f t n) d ≡ some e
    → (e.cache ≡ without f t n d.cache) × (e.store ≡ d.store)
delete_cache_law f t n d e h = ground arith

pub update_cache_law :
    (k : ℤ) (time : ℕ) (f t n : ℤ) (d e : Tables)
    → execute (update_cache k time f t n) d ≡ some e
    → (e.cache ≡ retried k time f t n d.cache) × (e.store ≡ d.store)
update_cache_law k time f t n d e h = ground arith

pub select_message_law :
    (f t n : ℤ) (d : Tables) (rows : List CacheRow)
    → some (select (matches f t n) d.cache) ≡ some rows
    → All (λ r. Mem r d.cache × (matches f t n r ≡ true)) rows
select_message_law f t n d rows h =
    let e : select (matches f t n) d.cache ≡ rows = cc in
    rw (← e) (select-All (matches f t n) d.cache)

abbrev pub memory-IsMySql : IsMySql memory
memory-IsMySql = record {
  cache = λ t. t.cache;
  store = λ t. t.store;
  default_retry = pos 0;
  update_sate_cover_lem = update_sate_cover_law;
  insert_cache_lem = insert_cache_law;
  insert_store_lem = insert_store_law;
  delete_cache_lem = delete_cache_law;
  update_cache_lem = update_cache_law;
  select_message_lem = select_message_law;
}

-- Every access server can be reached but those at port 0.
abbrev reachable : ℤ → Bool
reachable port = int_lt (pos 0) port

abbrev pub office : Env
office = record { server = memory; opens = λ a. reachable a.port; answers = λ a m. true }

abbrev pub access_one : Address
access_one = record { ip = []; port = pos 11001 }

abbrev pub access_two : Address
access_two = record { ip = []; port = pos 11002 }

-- One connection can be taken; beams 1 and 2 are configured, as in conf/conf.cfg.
abbrev pub world_of : Tables → World Tables
world_of t = record {
  db = t;
  pool = true ∷ [];
  held = 0;
  now = 1000;
  schedule_address = (pos 1, access_one) ∷ (pos 2, access_two) ∷ [];
  sent = [];
}

abbrev pub no_tables : Tables
no_tables = record { cache = []; store = []; covers = []; users = [] }
