-- ===== src/Qos/Rounds.antt =====
-- What a round of the QoS daemon does to the tables.
use short_message.Prelude.{
  ℕ, ◌+◌, ◌||◌, ◌≡◌, refl, ap, ◌∙◌, Bool, true, false, List, [], ◌∷◌, if◌then◌else◌, Option-cases,
  inl, inr, All, length, ◌≤◌,
}
use short_message.Prelude.Int.{ℤ, pos, int32, u32}
use short_message.Memory.{IsText}
use short_message.Coder.RoundTrip.{item_encode-Delivers}
use short_message.Protocol.{SateParam, MessageItem}
use short_message.Database.Sql.{CacheRow, update_cache}
use short_message.Database.Laws.{IsMySql, matches, retried}
use short_message.Database.Kept.{letter, letters}
use short_message.Database.{
  get_sate_cover, get_all_offline_message, take_due, item_of_row, increment, next_retry,
}
use short_message.World.{Env, World, After, Total, run, connect}
use short_message.World.Frame.{
  Frames, frame_rules, Frames-bind, After-if_eq, After-map, After-bind, connect_lem, connect_total,
  Total-bind, Total-then,
}
use short_message.Send.Sends.{send_message-Frames, send_message-Total}
use short_message.Qos.{QosSendDaemon, send_to, send_one, send_all, round, start, sleep}

letter-if :
    (b : Bool) (r : CacheRow) (k : ℤ) (time : ℕ)
    → letter
        (if b then record { given = record r.given { retry_time = time }; retry_num = k } else r)
      ≡ letter r
letter-if true r k time = refl
letter-if false r k time = refl

letters-retried :
    (k : ℤ) (time : ℕ) (f t n : ℤ) (rows : List CacheRow)
    → letters (retried k time f t n rows) ≡ letters rows
unfolding retried
letters-retried k time f t n [] = refl
letters-retried k time f t n (r ∷ rows) =
    rw (letter-if (matches f t n r) r k time, letters-retried k time f t n rows)

module _ (env : Env) (sql : IsMySql env.server) where
  open env use {server}

  -- No message has left the cache or come into it, and none has been stored.
  pub record SameMessages (db db' : server.Db) : Type 0 where
    pub cached : letters (sql.cache db') ≡ letters (sql.cache db)
    pub stored : sql.store db' ≡ sql.store db

  take_due_lem :
      (now : ℕ) (interval : ℤ) (rows : List CacheRow) (db : server.Db)
      → SameMessages db (take_due server now interval rows db).1
  unfolding take_due
  take_due_lem now interval [] db = record { cached = refl; stored = refl }
  take_due_lem now interval (r ∷ rows) db =
      let m = item_of_row r in
      let n = increment r.retry_num in
      let at = next_retry now n interval in
      elim (Option-cases (
        server.execute (update_cache n at (int32 m.from_id) (int32 m.to_id) (pos m.frame_id)) db)) [
          | inl x ↦ rw (x, take_due) (record { cached = refl; stored = refl })
          | inr (db', x) ↦
              let now_cached =
                sql.update_cache_lem n at (int32 m.from_id) (int32 m.to_id) (pos m.frame_id) db db'
                  x in
              let later = take_due_lem now interval rows db' in
              rw (x, take_due)
                (record {
                  cached =
                      later.cached
                      ∙ ap letters now_cached.0
                      ∙ letters-retried n at (int32 m.from_id) (int32 m.to_id) (pos m.frame_id)
                          (sql.cache db);
                  stored = later.stored ∙ now_cached.1;
                })
        ]

  all_due_lem :
      (now : ℕ) (interval max_retry_num : ℤ) (db : server.Db)
      → SameMessages db (get_all_offline_message server now max_retry_num interval db).1
  unfolding get_all_offline_message
  all_due_lem now interval max_retry_num db =
      elim (Option-cases (server.select_due max_retry_num now db)) [
        | inl x ↦ rw (x, get_all_offline_message) (record { cached = refl; stored = refl })
        | inr (rows, x) ↦ rw (x, get_all_offline_message) (take_due_lem now interval rows db)
      ]

  send_to-Frames : (m : MessageItem) (sates : List SateParam) → Frames (send_to env m sates)
  unfolding send_to
  send_to-Frames m [] = search frame_rules
  send_to-Frames m (s ∷ sates) = search (frame_rules, send_message-Frames env) depth 8

  send_one-Frames : (m : MessageItem) → Frames (send_one env m)
  unfolding send_one
  send_one-Frames m = search (frame_rules, send_to-Frames) depth 8

  send_all-Frames : (messages : List MessageItem) → Frames (send_all env messages)
  unfolding send_all
  send_all-Frames [] = search frame_rules
  send_all-Frames (m ∷ messages) =
      Frames-bind _ _ (send_one-Frames m) (λ _. send_all-Frames messages)

  -- A round of the QoS daemon, whatever it sends, loses no message: when it ends, the cache has the
  -- same messages in the same order, changed in their retry columns at most, and no message has been
  -- stored. Only a receipt takes a message out of the cache.
  pub round_keeps_messages :
      (d : QosSendDaemon) (w : World server.Db)
      → After (round env d w) (λ _ w'. SameMessages w.db w'.db)
  unfolding round run
  round_keeps_messages d w = After-bind (connect w) _ _ _ (connect_lem w) λ conn w₁ (c, (pool, e)).
      rw (e) (
        After-bind (send_all env _ _) _ (λ _ w₂. w₂.db ≡ _) _ ((send_all-Frames _).at _)
          λ _ w₂ same. rw (same) (all_due_lem w.now d.msg_interval d.max_retry_count w.db))

  -- The whole run of the QoS daemon loses no message, however many rounds it makes before it is told
  -- to stop: the cache then has the same messages in the same order, changed in their retry columns
  -- at most, and no message has been stored.
  pub start_keeps_messages :
      (d : QosSendDaemon) (events : List Bool) (w : World server.Db)
      → After (start env d events w) (λ _ w'. SameMessages w.db w'.db)
  unfolding start sleep run
  start_keeps_messages d [] w = tt
  start_keeps_messages d (stopped ∷ events) w =
      After-if_eq (d.stop || stopped) _ _ w _ (λ e. record { cached = refl; stored = refl })
        λ e. After-bind (round env d w) _ _ _ (round_keeps_messages d w) λ _ w₁ first.
          After-map _ _ (λ _ w'. SameMessages w.db w'.db)
            (start_keeps_messages d events (record w₁ { now = w₁.now + u32 d.check_interval }))
            λ _ w₂ later. record {
              cached = later.cached ∙ first.cached;
              stored = later.stored ∙ first.stored;
            }

module _ (env : Env) where
  open env use {server}

  -- A message that `MessageEncode` can take.
  abbrev pub IsEncodable : MessageItem → Type 0
  IsEncodable m = IsText m.content × (length m.content ≤ 1011)

  send_to-Total :
      (m : MessageItem) (sates : List SateParam) (w : World server.Db)
      → IsEncodable m
      → Total (send_to env m sates w)
  unfolding send_to run
  send_to-Total m [] w fit = (_, _, refl)
  send_to-Total m (s ∷ sates) w (text, le) = rw ((item_encode-Delivers m text le).encoded) (
      Total-bind _ _ (send_message-Total env m.to_id _ (s ∷ sates) (pos 5) w)
        λ _ w' _. (_, _, refl))

  send_all-Total :
      (messages : List MessageItem) (w : World server.Db)
      → All IsEncodable messages
      → Total (send_all env messages w)
  unfolding send_all send_one run
  send_all-Total [] w fit = (_, _, refl)
  send_all-Total (m ∷ messages) w (fit, fits) =
      Total-bind _ _ (send_to-Total m (get_sate_cover server (int32 m.to_id) w.db) w fit)
        λ _ w' _. send_all-Total messages w' fits

  -- A round of the QoS daemon ends if the pool has a connection and every message that it takes has
  -- no NUL and at most 1011 bytes.
  pub round-Total :
      (d : QosSendDaemon) (w : World server.Db) (rest : List Bool)
      → w.pool ≡ true ∷ rest
      → All IsEncodable
          (get_all_offline_message server w.now d.max_retry_count d.msg_interval w.db).0
      → Total (round env d w)
  unfolding round run
  round-Total d w rest p fits =
      Total-then (connect w) _ true _ (connect_total w rest p)
        (Total-bind _ _ (send_all-Total _ _ fits) λ _ w' _. (_, _, refl))
