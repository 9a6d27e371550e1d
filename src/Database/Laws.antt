-- ===== src/Database/Laws.antt =====
-- What the code relies on in MySQL: the documented effect of each statement on the tables, as laws
-- of a parameter. The order of a table's rows is that of their insertion.
use short_message.Prelude.{ℕ, ◌≡◌, ◌&&◌, Bool, some, List, [], ◌∷◌, ◌++◌, if◌then◌else◌, All, true}
use short_message.Prelude.Int.{ℤ, int_eq}
use mathlib.Core.List.{Mem}
use short_message.Database.Sql.{
  Server, StoreRow, NewCacheRow, CacheRow, insert_store, insert_cache, delete_cache, update_cache,
  update_sate_cover,
}

-- WHERE from_user = ? AND to_user = ? AND frame_id = ?
abbrev pub matches : ℤ → ℤ → ℤ → CacheRow → Bool
matches from_user to_user frame_id r =
    int_eq r.from_user from_user && (int_eq r.to_user to_user && int_eq r.frame_id frame_id)

-- The rows that a DELETE leaves.
unfoldable pub without : ℤ → ℤ → ℤ → List CacheRow → List CacheRow
without f t n [] = []
without f t n (r ∷ rows) =
    let rest = without f t n rows in if matches f t n r then rest else r ∷ rest

-- The rows after an UPDATE of the retry columns.
unfoldable pub retried : ℤ → ℕ → ℤ → ℤ → ℤ → List CacheRow → List CacheRow
retried k time f t n [] = []
retried k time f t n (r ∷ rows) =
    (if matches f t n r
      then record { given = record r.given { retry_time = time }; retry_num = k }
      else r)
    ∷ retried k time f t n rows

pub record IsMySql (s : Server) : Type 0 where
  pub cache : s.Db → List CacheRow
  pub store : s.Db → List StoreRow
  -- the default of the column retry_num
  pub default_retry : ℤ
  pub update_sate_cover_lem :
      (snrs : List ℕ) (user_id : ℕ) (d e : s.Db)
      → s.execute (update_sate_cover snrs user_id) d ≡ some e
      → (cache e ≡ cache d) × (store e ≡ store d)
  pub insert_cache_lem :
      (r : NewCacheRow) (d e : s.Db)
      → s.execute (insert_cache r) d ≡ some e
      → (cache e ≡ cache d ++ record { given = r; retry_num = default_retry } ∷ [])
        × (store e ≡ store d)
  pub insert_store_lem :
      (r : StoreRow) (d e : s.Db)
      → s.execute (insert_store r) d ≡ some e
      → (store e ≡ store d ++ r ∷ []) × (cache e ≡ cache d)
  pub delete_cache_lem :
      (f t n : ℤ) (d e : s.Db)
      → s.execute (delete_cache f t n) d ≡ some e
      → (cache e ≡ without f t n (cache d)) × (store e ≡ store d)
  pub update_cache_lem :
      (k : ℤ) (time : ℕ) (f t n : ℤ) (d e : s.Db)
      → s.execute (update_cache k time f t n) d ≡ some e
      → (cache e ≡ retried k time f t n (cache d)) × (store e ≡ store d)
  pub select_message_lem :
      (f t n : ℤ) (d : s.Db) (rows : List CacheRow)
      → s.select_message f t n d ≡ some rows
      → All (λ r. Mem r (cache d) × (matches f t n r ≡ true)) rows
