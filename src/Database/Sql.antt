-- ===== src/Database/Sql.antt =====
-- The MySQL server behind libzdb, which is not part of the repository: a parameter. Its statements
-- are the SQL texts of src/tools/database.cpp, each a constructor with the values that are bound.
use short_message.Prelude.{ℕ, Bool, Option, List, Bytes}
use short_message.Prelude.Int.{ℤ}

-- A row of message_store.
pub record StoreRow : Type 0 where
  pub from_user : ℤ
  pub to_user : ℤ
  pub type : ℤ
  pub text : Bytes
  pub recv_time : ℕ
  pub send_time : ℕ
  pub frame_id : ℤ

-- The columns of message_cache that an INSERT gives; retry_num takes the table's default.
pub record NewCacheRow : Type 0 where
  pub from_user : ℤ
  pub to_user : ℤ
  pub type : ℤ
  pub text : Bytes
  pub recv_time : ℕ
  pub frame_id : ℤ
  pub retry_time : ℕ

-- A row of message_cache.
pub record CacheRow : Type 0 where
  pub given : NewCacheRow
  pub open given use *
  pub retry_num : ℤ

-- The statements that write. An id that is bound is an `int`; the UPDATE of sate_cover has the SNRs
-- and the unsigned id in its text.
pub data Statement : Type 0 where
  update_sate_cover : (snrs : List ℕ) (user_id : ℕ) → Statement
  insert_store : StoreRow → Statement
  insert_cache : NewCacheRow → Statement
  delete_cache : (from_user to_user frame_id : ℤ) → Statement
  update_cache : (retry_num : ℤ) (retry_time : ℕ) (from_user to_user frame_id : ℤ) → Statement

-- `none` is an SQLException. A query gives its rows; times are seconds.
pub record Server : Type 1 where
  pub Db : Type 0
  pub Double : Type 0
  -- d > 0
  pub is_positive : Double → Bool
  -- (float) d
  pub to_float : Double → ℕ
  pub execute : Statement → Db → Option Db
  -- SELECT SNR_1, …, SNR_10 FROM sate_cover WHERE user_id = ?
  pub select_sate_cover : ℤ → Db → Option (List (List Double))
  -- SELECT COUNT(*) FROM message_cache WHERE to_user = ?
  pub count_cache : ℤ → Db → Option (List ℤ)
  -- SELECT * FROM user_info WHERE id = ?
  pub select_user : ℤ → Db → Option (List ℤ)
  -- SELECT … FROM message_cache WHERE from_user = ? AND to_user = ? AND frame_id = ?
  pub select_message : ℤ → ℤ → ℤ → Db → Option (List CacheRow)
  -- SELECT … FROM message_cache WHERE retry_num < ? AND retry_time <= ?
  pub select_due : ℤ → ℕ → Db → Option (List CacheRow)
