-- ===== src/Qos/Delivery.antt =====
-- A message that is due and whose receiver can be reached is sent in the round.
use short_message.Prelude.{
  ℕ, ◌+◌, ◌≡◌, ◌≢◌, refl, sym, ap, ◌∙◌, inl, inr, Bool, true, false, List, [], ◌∷◌, ◌++◌,
  append-nil, none, map, append_assoc, All, All-mem, some, Bool-cases, Option-cases, arith,
  if◌then◌else◌,
}
use short_message.Prelude.Int.{ℤ, pos, negsuc, int32}
use mathlib.Core.Path.{subst}
use mathlib.Core.List.{Mem, not-mem-nil, mem-append_left, mem-cons_self, mem-append_right}
use mathlib.Core.Bool.{false≢true, Bool-set}
use mathlib.Core.HLevel.{→_prop}
use short_message.Machine.{ok}
use short_message.Float.{minus_one, gt}
use short_message.Protocol.{SateParam, MessageItem}
use short_message.Coder.{item_encode}
use short_message.Coder.RoundTrip.{item_encode-Delivers}
use short_message.Database.{
  take_due, item_of_row, increment, next_retry, get_sate_cover, cover_params,
  get_all_offline_message,
}
use short_message.Database.Sql.{CacheRow, update_cache}
use short_message.World.{Env, World, Address, AccessMessage, M, pure, ◌>>◌, run, connect, close}
use short_message.World.Frame.{connect_total, bind-ok}
use short_message.Send.{send_message, find_address, access_message, is_scheduled}
use short_message.Send.Route.{send_message-Routes, of_sate}
use short_message.Qos.{QosSendDaemon, send_to, send_one, send_all, round}
use short_message.Qos.Rounds.{IsEncodable}

module _ (env : Env) where
  open env use {server, server.{Double, is_positive, to_float}}

  cover_params-ids :
      (i : ℕ) (columns : List Double)
      → All (λ s. s.sate_id ≢ negsuc 0) (cover_params server i columns)
  unfolding cover_params
  cover_params-ids i [] = tt
  cover_params-ids i (d ∷ columns) = elim (Bool-cases (is_positive d)) [
    | inl e ↦ rw e ((λ p. cc), cover_params-ids (i + 1) columns)
    | inr e ↦ rw e (cover_params-ids (i + 1) columns)
  ]

  cover-ids :
      (user_id : ℤ) (db : server.Db)
      → All (λ s. s.sate_id ≢ negsuc 0) (get_sate_cover server user_id db)
  unfolding get_sate_cover
  cover-ids user_id db = elim (Option-cases (server.select_sate_cover user_id db)) [
    | inl e ↦ rw e tt
    | inr ([], e) ↦ rw e tt
    | inr (row ∷ rows, e) ↦ rw e (cover_params-ids 1 row)
  ]

-- Among these calls of access servers is one with this message, for its receiver.
abbrev pub IsPosted : List (Address × AccessMessage) → MessageItem → Type 0
IsPosted calls m =
    (a : Address) × (x : AccessMessage) × Mem (a, x) calls
    × (x.uid ≡ int32 m.to_id)
    × (item_encode m ≡ ok x.content)

IsPosted-front :
    (xs ys : List (Address × AccessMessage)) (m : MessageItem)
    → IsPosted xs m
    → IsPosted (xs ++ ys) m
IsPosted-front xs ys m (a, x, mem, uid, e) = (a, x, mem-append_left ys mem, uid, e)

IsPosted-back :
    (xs ys : List (Address × AccessMessage)) (m : MessageItem)
    → IsPosted ys m
    → IsPosted (xs ++ ys) m
IsPosted-back xs ys m (a, x, mem, uid, e) = (a, x, mem-append_right xs mem, uid, e)

module _ (env : Env) where
  open env use {server}

  -- The receiver's cover has a satellite whose beam has a configured access server, and whose SNR is
  -- above -1.
  abbrev pub IsReachable : server.Db → List (ℤ × Address) → MessageItem → Type 0
  IsReachable db table m =
      (s : SateParam) × Mem s (get_sate_cover server (int32 m.to_id) db)
      × (is_scheduled s.beam_id table ≡ true)
      × (gt s.snr minus_one ≡ true)

  -- An action that ends, changes no more than the list of calls, and adds these to it.
  record Posts (act : M server.Db (Unit {0})) (w : World server.Db)
      (P : List (Address × AccessMessage) → Type 0) : Type 0 where
    calls : List (Address × AccessMessage)
    ends : act w ≡ ok (tt, record w { sent = w.sent ++ calls })
    holds : P calls

  nothing_posted :
      (act : M server.Db (Unit {0})) (w : World server.Db)
      (P : List (Address × AccessMessage) → Type 0)
      → act w ≡ ok (tt, w)
      → P []
      → Posts act w P
  nothing_posted act w P e p = record {
    calls = [];
    ends = e ∙ ap (λ l. ok (tt, record w { sent = l })) (sym (append-nil w.sent));
    holds = p;
  }

  -- Every configured access server takes connections.
  abbrev pub AllOpen : List (ℤ × Address) → Type 0
  AllOpen = All (λ e. env.opens e.1 ≡ true)

  find_address-opens :
      (b : ℤ) (table : List (ℤ × Address)) (a : Address)
      → find_address b table ≡ some a
      → AllOpen table
      → env.opens a ≡ true
  unfolding find_address
  find_address-opens b [] a e h = cc
  find_address-opens b ((c, x) ∷ table) a e (h, hs) = ground (arith, find_address-opens b table a)

  open_lem :
      {B : Type 0} (a : Address) (x y : B) → env.opens a ≡ true → (if env.opens a then x else y) ≡ x
  open_lem a x y e = rw e

  -- What `send_message` returns is dropped.
  then_pure :
      (act : M server.Db Bool) (w : World server.Db) (b : Bool) (w' : World server.Db)
      → act w ≡ ok (b, w')
      → (act >> pure tt) w ≡ ok (tt, w')
  unfolding run
  then_pure act w b w' e = bind-ok (act w) (λ _. pure tt) b w' e

  send_to-Posts :
      (m : MessageItem) (sates : List SateParam) (w : World server.Db)
      → AllOpen w.schedule_address
      → IsEncodable env m
      → All (λ s. s.sate_id ≢ negsuc 0) sates
      → Posts (send_to env m sates) w (λ calls.
        (s : SateParam)
        → Mem s sates
        → is_scheduled s.beam_id w.schedule_address ≡ true
        → gt s.snr minus_one ≡ true
        → IsPosted calls m)
  unfolding send_to run
  send_to-Posts m [] w opened fit ids =
      nothing_posted _ w _ refl (λ s mem. absurd (not-mem-nil mem))
  send_to-Posts m (s ∷ sates) w opened (text, le) ids =
      let d = item_encode-Delivers m text le in
      let send = send_message env m.to_id d.bytes (s ∷ sates) (pos 5) in
      elim (send_message-Routes env m.to_id d.bytes (s ∷ sates) (pos 5) w ids) [
        | inl (low, e) ↦
            nothing_posted _ w _ (rw d.encoded (then_pure send w false w e)) (λ t mem sched high.
              absurd (
                false≢true (
                  sym (All-mem _ (λ t. →_prop (Bool-set _ _)) t (s ∷ sates) low mem sched) ∙ high)))
        | inr (t, a, mem, found, g, best, e) ↦ record {
          calls = (a, access_message m.to_id (of_sate t) (pos 5) d.bytes) ∷ [];
          ends = rw d.encoded (
              then_pure send w _ _ (
                e
                ∙ open_lem a _ _ (find_address-opens t.beam_id w.schedule_address a found opened)));
          holds = λ _ _ _ _. (
            a,
            access_message m.to_id (of_sate t) (pos 5) d.bytes,
            mem-cons_self,
            refl,
            d.encoded,
          );
        }
      ]

  send_one-Posts :
      (m : MessageItem) (w : World server.Db)
      → AllOpen w.schedule_address
      → IsEncodable env m
      → Posts (send_one env m) w (λ calls. IsReachable w.db w.schedule_address m → IsPosted calls m)
  unfolding send_one run
  send_one-Posts m w opened fit =
      let sates = get_sate_cover server (int32 m.to_id) w.db in
      let p = send_to-Posts m sates w opened fit (cover-ids env (int32 m.to_id) w.db) in
      record {
        calls = p.calls;
        ends = p.ends;
        holds = λ (s, mem, sched, high). p.holds s mem sched high;
      }

  map_all :
      (P Q : MessageItem → Type 0) (ms : List MessageItem)
      → ((m : MessageItem) → P m → Q m)
      → All P ms
      → All Q ms
  map_all P Q [] f h = tt
  map_all P Q (m ∷ ms) f (h, hs) = (f m h, map_all P Q ms f hs)

  send_all-Posts :
      (messages : List MessageItem) (w : World server.Db)
      → AllOpen w.schedule_address
      → All (IsEncodable env) messages
      → Posts
          (send_all env messages)
          w
          (λ calls. All (λ m. IsReachable w.db w.schedule_address m → IsPosted calls m) messages)
  unfolding send_all run
  send_all-Posts [] w opened fit = nothing_posted _ w _ refl tt
  send_all-Posts (m ∷ messages) w opened (fit, fits) =
      let p = send_one-Posts m w opened fit in
      let w₁ = record w { sent = w.sent ++ p.calls } in
      let q = send_all-Posts messages w₁ opened fits in
      record {
        calls = p.calls ++ q.calls;
        ends =
            bind-ok (send_one env m w) (λ _. send_all env messages) tt w₁ p.ends
            ∙ q.ends
            ∙ ap (λ l. ok (tt, record w { sent = l })) (append_assoc w.sent p.calls q.calls);
        holds = (
          λ r. IsPosted-front p.calls q.calls m (p.holds r),
          map_all (λ n. IsReachable w.db w.schedule_address n → IsPosted q.calls n) _ messages
              (λ n h r. IsPosted-back p.calls q.calls n (h r)) q.holds,
        );
      }

  -- The server executes every UPDATE of the retry columns.
  abbrev pub Accepts : Type 0
  Accepts =
      (k : ℤ) (time : ℕ) (f t n : ℤ) (db : server.Db)
      → server.execute (update_cache k time f t n) db ≢ none

  take_due-rows :
      (now : ℕ) (interval : ℤ) (rows : List CacheRow) (db : server.Db)
      → Accepts
      → (take_due server now interval rows db).0 ≡ map item_of_row rows
  unfolding take_due
  take_due-rows now interval [] db ok_all = refl
  take_due-rows now interval (r ∷ rows) db ok_all =
      let m = item_of_row r in
      let n = increment r.retry_num in
      let at = next_retry now n interval in
      elim (Option-cases (
        server.execute (update_cache n at (int32 m.from_id) (int32 m.to_id) (pos m.frame_id)) db)) [
          | inl x ↦ absurd (ok_all n at (int32 m.from_id) (int32 m.to_id) (pos m.frame_id) db x)
          | inr (db', x) ↦
              rw (x, take_due) (ap (λ ms. m ∷ ms) (take_due-rows now interval rows db' ok_all))
        ]

  due_rows :
      (now : ℕ) (max_retry_num interval : ℤ) (db : server.Db) (rows : List CacheRow)
      → server.select_due max_retry_num now db ≡ some rows
      → Accepts
      → (get_all_offline_message server now max_retry_num interval db).0 ≡ map item_of_row rows
  unfolding get_all_offline_message
  due_rows now max_retry_num interval db rows e ok_all =
      rw (e, get_all_offline_message) (take_due-rows now interval rows db ok_all)

  -- The round, for the messages that it takes.
  round_posts :
      (d : QosSendDaemon) (w : World server.Db) (rest : List Bool)
      → w.pool ≡ true ∷ rest
      → AllOpen w.schedule_address
      → let due = get_all_offline_message server w.now d.max_retry_count d.msg_interval w.db in
        All (IsEncodable env) due.0
        → (calls : List (Address × AccessMessage)) × (round env d w
            ≡ ok (tt, record w { db = due.1; pool = rest; sent = w.sent ++ calls }))
          × All (λ m. IsReachable due.1 w.schedule_address m → IsPosted calls m) due.0
  unfolding round run
  round_posts d w rest e opened fits =
      let due = get_all_offline_message server w.now d.max_retry_count d.msg_interval w.db in
      let w₁ = record w { db = due.1; pool = rest; held = w.held + 1 } in
      let p = send_all-Posts due.0 w₁ opened fits in
      let w₂ = record w₁ { sent = w.sent ++ p.calls } in
      (
        p.calls,
        bind-ok (connect w) _ true _ (connect_total w rest e)
            ∙ bind-ok (send_all env due.0 w₁) (λ _. close) tt w₂ p.ends
            ∙ ap (λ k. ok (tt, record w₂ { held = k })) (omega arith),
        p.holds,
      )

  -- A round of the QoS daemon sends what it can: if the pool has a connection, every configured
  -- access server takes connections, the query for the messages that are due gives these rows, the
  -- server executes the UPDATEs of their retry columns, and the text of every row has at most 1011
  -- bytes up to its first NUL, then the round ends, and for each of the rows whose receiver's cover has a
  -- satellite with a configured beam and an SNR above -1, a call of an access server with the encoded
  -- message has been made. The cover is read after the retry columns have been updated.
  pub round_delivers :
      (d : QosSendDaemon) (w : World server.Db) (rest : List Bool) (rows : List CacheRow)
      → w.pool ≡ true ∷ rest
      → AllOpen w.schedule_address
      → server.select_due d.max_retry_count w.now w.db ≡ some rows
      → Accepts
      → All (IsEncodable env) (map item_of_row rows)
      → let db' = (get_all_offline_message server w.now d.max_retry_count d.msg_interval w.db).1 in
        (calls : List (Address × AccessMessage)) × (round env d w
          ≡ ok (tt, record w { db = db'; pool = rest; sent = w.sent ++ calls }))
        × All (λ m. IsReachable db' w.schedule_address m → IsPosted calls m) (map item_of_row rows)
  round_delivers d w rest rows e opened q ok_all fits =
      let same = due_rows w.now d.max_retry_count d.msg_interval w.db rows q ok_all in
      let (calls, ends, posted) =
        round_posts d w rest e opened (subst (All (IsEncodable env)) (sym same) fits) in
      (calls, ends, subst (All _) same posted)
