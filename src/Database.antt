-- ===== src/Database.antt =====
-- src/tools/database.cpp: each method over the server's state. A method that catches an SQLException
-- leaves the state as the statements before the exception left it.
pub mod Sql
pub mod Setup
pub mod Pool
pub mod Cover
pub mod Kept
pub mod Laws
use short_message.Prelude.{
  ℕ, zero, suc, ◌+◌, ◌-◌, ◌*◌, ◌/◌, ◌%◌, ◌^◌, Bool, true, false, not, ◌&&◌, Option, none, some,
  List, [], ◌∷◌, Bytes, replicate, set, if◌then◌else◌,
}
use short_message.Prelude.Int.{ℤ, pos, negsuc, int32, u32, u16, u8, int_lt}
use short_message.Machine.{Result, ok, fault, out_of_bounds, aborted, ◌>>=◌, in_bounds}
use short_message.Memory.{until_nul, htonl, htons, c_string}
use short_message.Float.{minus_one, to_int, of_int}
use short_message.Protocol.{ControlHead, SateParam, Satellite, MessageItem}
use Sql.{
  Server, StoreRow, NewCacheRow, CacheRow, Statement, update_sate_cover, insert_store, insert_cache,
  delete_cache, update_cache,
}

abbrev pub max_beam_num : ℕ
max_beam_num = 10

-- beam_id - 1 of a beam id from 1 to 10
abbrev beam_index : ℤ → ℕ
beam_index (pos n) = n - 1
beam_index (negsuc n) = 0

-- beam_id >= 1 && beam_id <= 10
abbrev pub is_beam : ℤ → Bool
is_beam b = not (int_lt b (pos 1)) && not (int_lt (pos 10) b)

-- The loop over `sat_cover_num` satellites that fills `temp_snr`.
unfoldable pub fill_snr : ℕ → List SateParam → List ℕ → Result (List ℕ)
fill_snr zero params temp_snr = ok temp_snr
fill_snr (suc n) [] temp_snr = fault out_of_bounds
fill_snr (suc n) (p ∷ params) temp_snr =
    let rest = fill_snr n params (set temp_snr (beam_index p.beam_id) p.snr) in
    if is_beam p.beam_id then rest else fault aborted

-- a satellite of a beam that the database reports: `SateParam((i + 1) / 2, i, (float)temp)`, whose
-- constructor takes the SNR as an int32_t
abbrev pub covered : ℕ → ℕ → SateParam
covered i temp = record { sate_id = pos ((i + 1) / 2); beam_id = pos i; snr = of_int (to_int temp) }

-- A row as a MessageItem: what is left of each `int` in the field's type, and the text up to its first
-- NUL. A NULL text, of which `std::string` throws, is left out: the code writes no such row.
abbrev pub item_of_row : CacheRow → MessageItem
item_of_row r = record {
  to_id = u32 r.to_user;
  from_id = u32 r.from_user;
  frame_id = u16 r.frame_id;
  type = u8 r.type;
  retain = 0;
  content = until_nul r.text;
}

-- int + 1; the overflow of the greatest int is undefined in C++, here it wraps.
abbrev pub increment : ℤ → ℤ
increment n = int32 ((u32 n + 1) % 2 ^ 32)

-- cur_timestamp + retry_num * retry_interval, where count and interval may be negative; a time before
-- 1970 is cut off at 0.
abbrev pub next_retry : ℕ → ℤ → ℤ → ℕ
next_retry now (pos n) (pos i) = now + n * i
next_retry now (pos n) (negsuc i) = now - n * suc i
next_retry now (negsuc n) (pos i) = now - suc n * i
next_retry now (negsuc n) (negsuc i) = now + suc n * suc i

module _ (server : Server) where
  open server use {
    Db, Double, is_positive, to_float, execute, select_sate_cover, count_cache, select_user,
    select_message, select_due,
  }

  -- TRY { execute; return true } CATCH { return false }
  abbrev pub attempt : Statement → Db → Bool × Db
  attempt s db = elim (execute s db) [ none ↦ (false, db) | some db' ↦ (true, db') ]

  unfoldable pub update_cover : ℕ → Satellite → Db → Result (Bool × Db)
  update_cover user_id cover db = do
    snrs ← fill_snr cover.sat_cover_num cover.sates_param (replicate max_beam_num minus_one)
    ok (attempt (update_sate_cover snrs user_id) db)

  -- The loop over the columns SNR_i of a row.
  unfoldable pub cover_params : ℕ → List Double → List SateParam
  cover_params i [] = []
  cover_params i (temp ∷ columns) =
      let rest = cover_params (i + 1) columns in
      if is_positive temp then covered i (to_float temp) ∷ rest else rest

  first_cover : Option (List (List Double)) → List SateParam
  first_cover none = []
  first_cover (some []) = []
  first_cover (some (row ∷ rows)) = cover_params 1 row

  unfoldable pub get_sate_cover : ℤ → Db → List SateParam
  unfolding first_cover
  get_sate_cover user_id db = first_cover (select_sate_cover user_id db)

  first_count : Option (List ℤ) → ℤ
  first_count none = pos 0
  first_count (some []) = pos 0
  first_count (some (n ∷ rows)) = n

  unfoldable pub get_offline_message_num : ℕ → Db → ℤ
  unfolding first_count
  get_offline_message_num user_id db = first_count (count_cache (int32 user_id) db)

  -- `InsertStoreMessage(conn, control_head)`; `content` is bound as a C string.
  unfoldable pub insert_store_message : ℕ → ControlHead → Db → Result (Bool × Db)
  insert_store_message now h db = do
    text ← in_bounds (c_string h.content)
    ok (
        attempt
          (insert_store (record {
            from_user = int32 (htonl h.from_id);
            to_user = int32 (htonl h.to_id);
            type = pos h.type;
            text = text;
            recv_time = now;
            send_time = now;
            frame_id = pos (htons h.frame_id);
          }))
          db)

  -- `InsertStoreMessage(conn, msg, recv_time)`: parameter 1 is the column from_user.
  unfoldable pub insert_store_item : ℕ → MessageItem → ℕ → Db → Bool × Db
  insert_store_item now msg recv_time db =
      attempt
        (insert_store (record {
          from_user = int32 msg.to_id;
          to_user = int32 msg.from_id;
          type = pos msg.type;
          text = msg.content;
          recv_time = recv_time;
          send_time = now;
          frame_id = pos msg.frame_id;
        }))
        db

  unfoldable pub insert_offline_message : ℕ → ControlHead → Db → Result (Bool × Db)
  insert_offline_message now h db = do
    text ← in_bounds (c_string h.content)
    ok (
        attempt
          (insert_cache (record {
            from_user = int32 (htonl h.from_id);
            to_user = int32 (htonl h.to_id);
            type = pos h.type;
            text = text;
            recv_time = now;
            frame_id = pos (htons h.frame_id);
            retry_time = now + 10;
          }))
          db)

  unfoldable pub delete_offline_message : ℕ → ℕ → ℕ → Db → Bool × Db
  delete_offline_message from_id to_id frame_id =
      attempt (delete_cache (int32 from_id) (int32 to_id) (pos frame_id))

  unfoldable pub update_offline_message : ℕ → ℕ → ℕ → ℤ → ℕ → Db → Db
  update_offline_message from_id to_id frame_id retry_num timestamp db =
      (attempt (update_cache retry_num timestamp (int32 from_id) (int32 to_id) (pos frame_id)) db).1

  unfoldable pub is_exist_user : ℕ → Db → Bool
  is_exist_user user_id db = elim (select_user (int32 user_id) db) [
    | none ↦ false
    | some [] ↦ false
    | some (r ∷ rows) ↦ true
  ]

  -- `GetOfflineMessage` over the message and the time that its caller passes: they stay as they are
  -- where no row is found. The flag is the result.
  unfoldable pub get_offline_message : ℕ → ℕ → ℕ → MessageItem → ℕ → Db → Bool × MessageItem × ℕ
  get_offline_message from_id to_id frame_id msg recv_time db =
      elim (select_message (int32 from_id) (int32 to_id) (pos frame_id) db) [
        | none ↦ (false, msg, recv_time)
        | some [] ↦ (true, msg, recv_time)
        | some (r ∷ rows) ↦ (true, item_of_row r, r.recv_time)
      ]

  -- The loop over the result set of `GetAllOfflineMessage`: an exception ends it, after the message
  -- has been taken.
  unfoldable pub take_due : ℕ → ℤ → List CacheRow → Db → List MessageItem × Db
  take_due now interval [] db = ([], db)
  take_due now interval (r ∷ rows) db =
      let m = item_of_row r in
      let n = increment r.retry_num in
      let update =
        update_cache n (next_retry now n interval) (int32 m.from_id) (int32 m.to_id)
          (pos m.frame_id) in
      elim (execute update db) [
        | none ↦ (m ∷ [], db)
        | some db' ↦ let (ms, end) = take_due now interval rows db' in (m ∷ ms, end)
      ]

  unfoldable pub get_all_offline_message : ℕ → ℤ → ℤ → Db → List MessageItem × Db
  get_all_offline_message now max_retry_num interval db = elim (select_due max_retry_num now db) [
    | none ↦ ([], db)
    | some rows ↦ take_due now interval rows db
  ]
