-- ===== src/Database/Kept.antt =====
-- Which statements of src/tools/database.cpp leave a cached message in message_cache.
use mathlib.Core.List.{Mem, Mem-prop, mem-cons_of_mem, mem-cons}
use mathlib.Core.Logic.Or
use short_message.Prelude.{
  ℕ, ◌≡◌, refl, ap, sym, map, ◌&&◌, ◌++◌, inl, inr, false, some, List, [], ◌∷◌, Bool-cases,
  replicate, Option-cases,
}
use short_message.Prelude.Int.{ℤ, pos, int32, int_eq}
use short_message.Machine.{Result, ok, fault, ◌>>=◌, Yields}
use short_message.Float.{minus_one}
use short_message.Protocol.{MessageItem, Satellite}
use short_message.Database.Sql.{Server, NewCacheRow, CacheRow, Statement, update_sate_cover}
use short_message.Database.{
  attempt, update_cover, insert_store_item, fill_snr, max_beam_num, delete_offline_message,
}
use short_message.Database.Laws.{IsMySql, matches, without}

-- A cached message without its retry columns.
abbrev pub letter : CacheRow → NewCacheRow
letter r = record r.given { retry_time = 0 }

abbrev pub letters : List CacheRow → List NewCacheRow
letters rows = map letter rows

-- The key of a message does not depend on its retry columns.
matches-letter :
    (f t n : ℤ) (row r : CacheRow) → letter row ≡ letter r → matches f t n r ≡ matches f t n row
matches-letter f t n row r e =
    ap (λ l. int_eq l.from_user f && (int_eq l.to_user t && int_eq l.frame_id n)) (sym e)

mem-without :
    (f t n : ℤ) (row : CacheRow) (rows : List CacheRow)
    → matches f t n row ≡ false
    → Mem (letter row) (letters rows)
    → Mem (letter row) (letters (without f t n rows))
unfolding without
mem-without f t n row [] other m = m
mem-without f t n row (r ∷ rows) other m =
    Or.elim Mem-prop (mem-cons.0 m)
      (λ e. rw (matches-letter f t n row r e, other) (mem-cons.1 (Or.inl e)))
      (λ later. elim (Bool-cases (matches f t n r)) [
        | inl hit ↦ rw hit (mem-without f t n row rows other later)
        | inr miss ↦ rw miss (mem-cons_of_mem (letter r) (mem-without f t n row rows other later))
      ])

-- What is put behind a table keeps its messages.
pub letters-append :
    (rows : List CacheRow) (r : CacheRow) → letters (rows ++ r ∷ []) ≡ letters rows ++ letter r ∷ []
letters-append [] r = refl
letters-append (s ∷ rows) r = ap (λ ls. letter s ∷ ls) (letters-append rows r)

module _ (server : Server) (P : server.Db → Type 0) where
  -- A statement that keeps a property, or is refused.
  pub attempt_lem :
      (s : Statement) (db : server.Db)
      → ((e : server.Db) → server.execute s db ≡ some e → P e)
      → P db
      → P (attempt server s db).1
  attempt_lem s db after p = elim (Option-cases (server.execute s db)) [
    | inl x ↦ rw (x, attempt) p
    | inr (e, x) ↦ rw (x, attempt) (after e x)
  ]

  -- A statement that is made of what may fault.
  pub attempted_lem :
      {A : Type 0} (r : Result A) (s : A → Statement) (db : server.Db)
      → ((a : A) (e : server.Db) → server.execute (s a) db ≡ some e → P e)
      → P db
      → Yields (r >>= λ a. ok (attempt server (s a) db)) (λ x. P x.1)
  attempted_lem (ok a) s db after p = attempt_lem (s a) db (after a) p
  attempted_lem (fault e) s db after p = tt

module _ (server : Server) (sql : IsMySql server) (row : CacheRow) where
  -- The message of the row is in the cache, whatever its retry columns are.
  abbrev pub IsKept : server.Db → Type 0
  IsKept db = Mem (letter row) (letters (sql.cache db))

  pub update_cover-IsKept :
      (user_id : ℕ) (cover : Satellite) (db : server.Db)
      → IsKept db
      → Yields (update_cover server user_id cover db) (λ r. IsKept r.1)
  unfolding update_cover
  update_cover-IsKept user_id cover db kept =
      attempted_lem server IsKept
        (fill_snr cover.sat_cover_num cover.sates_param (replicate max_beam_num minus_one))
        (λ snrs. update_sate_cover snrs user_id) db
        (λ snrs e x. let (c, same) = sql.update_sate_cover_lem snrs user_id db e x in rw c kept)
        kept

  pub insert_store_item-IsKept :
      (now : ℕ) (msg : MessageItem) (recv_time : ℕ) (db : server.Db)
      → IsKept db
      → IsKept (insert_store_item server now msg recv_time db).1
  unfolding insert_store_item
  insert_store_item-IsKept now msg recv_time db kept =
      attempt_lem server IsKept _ db
        (λ e x. let (added, c) = sql.insert_store_lem _ db e x in rw c kept) kept

  -- A deletion keeps the rows that its key does not match.
  pub delete_offline_message-IsKept :
      (from_id to_id frame_id : ℕ)
      → matches (int32 from_id) (int32 to_id) (pos frame_id) row ≡ false
      → (db : server.Db) → IsKept db
      → IsKept (delete_offline_message server from_id to_id frame_id db).1
  unfolding delete_offline_message
  delete_offline_message-IsKept from_id to_id frame_id other db kept =
      attempt_lem server IsKept _ db
        (λ e x.
          let (c, same) =
            sql.delete_cache_lem (int32 from_id) (int32 to_id) (pos frame_id) db e x in
          rw c (
            mem-without (int32 from_id) (int32 to_id) (pos frame_id) row (sql.cache db) other kept))
        kept
