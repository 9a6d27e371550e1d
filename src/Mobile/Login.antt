-- ===== src/Mobile/Login.antt =====
-- What a login does to the database, and what it is answered.
use short_message.Prelude.{
  drop, not, ◌-◌, Option-cases, ℕ, ◌≡◌, refl, ◌⊎◌, inl, inr, Bool, true, false, none, ltb, some,
  List, Bytes, length, if◌then◌else◌, ◌==◌, arith, suc, zero,
}
use short_message.Prelude.Int.{ℤ, pos, negsuc}
use short_message.Memory.{htonl, read8, read32}
use short_message.Machine.{
  Result, ok, Result-cases, Yields, Yields-bind, Yields-any, Yields-ok, in_bounds,
}
use short_message.Protocol.{ControlHead, Satellite}
use short_message.Coder.{response_encode}
use short_message.Database.Sql.{update_sate_cover}
use short_message.Database.{attempt, update_cover, is_exist_user, get_offline_message_num}
use short_message.Database.Cover.{Writes, update_cover_lem}
use short_message.World.{Env, World, ◌>>=◌, ◌>>◌, pure, After, run, updated, connect, close}
use short_message.World.Frame.{After-if_eq, After-bind, After-map, connect_lem}
use short_message.Send.{send_message}
use short_message.Send.Sends.{SentTo, send_message_lem}
use short_message.Mobile.{response_to, waiting_count, login_receipt, process_login}
use short_message.Mobile.Cover.{cover_offset, read_params, read_cover}

read_params-length : (n : ℕ) (p : Bytes) → Yields (read_params n p) (λ params. n ≡ length params)
unfolding read_params
read_params-length zero p = refl
read_params-length (suc n) p = Yields-bind (in_bounds (read8 p)) _ _ _ (Yields-any _) λ a _.
    Yields-bind (in_bounds (read8 a.1)) _ _ _ (Yields-any _) λ b _.
      Yields-bind (in_bounds (read32 b.1)) _ _ _ (Yields-any _) λ c _.
        Yields-bind (read_params n c.1) _ (λ params. n ≡ length params) _ (read_params-length n c.1)
          λ params e. omega arith

-- The count of a cover that is read is that of its satellites.
pub read_cover-length :
    (content : Bytes)
    → Yields (read_cover content) (λ cover. cover.sat_cover_num ≡ length cover.sates_param)
unfolding read_cover
read_cover-length content =
    Yields-bind (in_bounds (read8 (drop cover_offset content))) _ _ _ (Yields-any _) λ a _.
      Yields-bind (in_bounds (read8 a.1)) _ _ _ (Yields-any _) λ b _.
        Yields-bind (read_params b.0 b.1) _ (λ params. b.0 ≡ length params) _
          (read_params-length b.0 b.1) λ params e. e

-- How many messages wait, as a login tells it: the number, but at most 255, and 255 where the
-- messages could not be counted, which is a negative number.
abbrev pub told : ℤ → ℕ
told (pos n) = if ltb n 256 then n else 255
told (negsuc n) = 255

pub waiting_count-told : (n : ℤ) → waiting_count n ≡ told n
waiting_count-told (pos n) = ground arith
waiting_count-told (negsuc n) = ground arith

module _ (env : Env) where
  open env use {server}

  -- The cover is in the user's row, by one UPDATE, and the receipt is 0x00 with the number of the
  -- messages that wait, as it is told to the user.
  pub record Taken (user_id : ℕ) (cover : Satellite) (db db' : server.Db) (receipt : ℕ × ℕ)
      : Type 0 where
    pub exists : is_exist_user server user_id db ≡ true
    pub snrs : List ℕ
    pub writes : Writes cover.sates_param snrs
    pub executed : server.execute (update_sate_cover snrs user_id) db ≡ some db'
    pub answer : receipt ≡ (0x00, told (get_offline_message_num server user_id db'))

  -- The server does not execute the UPDATE that would write the cover to the user's row.
  abbrev pub Refused : ℕ → Satellite → server.Db → Type 0
  Refused user_id cover db =
      (snrs : List ℕ) × Writes cover.sates_param snrs
      × (server.execute (update_sate_cover snrs user_id) db ≡ none)

  -- The user is not there or the UPDATE is refused, the receipt is 0x01, and the database is as it
  -- was; else the login is taken.
  abbrev pub Outcome : ℕ → Satellite → server.Db → server.Db → ℕ × ℕ → Type 0
  Outcome user_id cover db db' receipt =
      ((db' ≡ db)
        × (receipt ≡ (0x01, 0x00))
        × ((is_exist_user server user_id db ≡ false) ⊎ Refused user_id cover db))
      ⊎ Taken user_id cover db db' receipt

  -- What `UpdateSateCover` returns, and the database after it.
  abbrev pub Update : ℕ → Satellite → server.Db → server.Db → Bool → Type 0
  Update user_id cover db db' done =
      ((done ≡ false) × (db' ≡ db) × Refused user_id cover db)
      ⊎ ((done ≡ true)
          × ((snrs : List ℕ) × Writes cover.sates_param snrs
              × (server.execute (update_sate_cover snrs user_id) db ≡ some db')))

  pub updated_lem :
      (user_id : ℕ) (cover : Satellite) (w : World server.Db)
      → cover.sat_cover_num ≡ length cover.sates_param
      → After
          (updated w (update_cover server user_id cover w.db))
          (λ done w'. (w'.sent ≡ w.sent) × Update user_id cover w.db w'.db done)
  unfolding updated
  updated_lem user_id cover w n = elim (update_cover_lem server user_id cover w.db n) [
    | inl (good, (snrs, writes, e)) ↦
        elim (Option-cases (server.execute (update_sate_cover snrs user_id) w.db)) [
          | inl x ↦ rw (e, x, attempt) (refl, inl (refl, refl, (snrs, writes, x)))
          | inr (db', x) ↦ rw (e, x, attempt) (refl, inr (refl, (snrs, writes, x)))
        ]
    | inr (bad, e) ↦ rw e tt
  ]

  login_receipt_lem :
      (user_id : ℕ) (cover : Satellite) (w : World server.Db)
      → cover.sat_cover_num ≡ length cover.sates_param
      → After
          (login_receipt env user_id cover w)
          (λ r w'. (w'.sent ≡ w.sent) × Outcome user_id cover w.db w'.db r)
  unfolding login_receipt run
  login_receipt_lem user_id cover w n =
      After-if_eq (is_exist_user server user_id w.db) _ _ w _
        (λ exists.
          After-bind (updated w (update_cover server user_id cover w.db)) _
            (λ done w'. (w'.sent ≡ w.sent) × Update user_id cover w.db w'.db done) _
            (updated_lem user_id cover w n)
            λ done w' (sent, u). elim u [
              | inl (off, same, refused) ↦ rw off (sent, inl (same, refl, inr refused))
              | inr (on, (snrs, writes, x)) ↦ rw on (
                sent,
                inr (record {
                  exists = exists;
                  snrs = snrs;
                  writes = writes;
                  executed = x;
                  answer =
                      rw (waiting_count-told (get_offline_message_num server user_id w'.db)) refl;
                }),
              )
            ])
        (λ unknown. (refl, inl (refl, refl, inl unknown)))

  -- The end of a login whose request holds this cover: nothing has been done for a cover without
  -- satellites, or the login has come out one way, and the user has been sent at most one message,
  -- with the receipt.
  abbrev pub LoginDone : ControlHead → World server.Db → World server.Db → Satellite → Type 0
  LoginDone h w w' cover =
      ((cover.sat_cover_num ≡ 0) × (w' ≡ w))
      ⊎ ((receipt : ℕ × ℕ) × Outcome (htonl h.from_id) cover w.db w'.db receipt
          × SentTo (htonl h.from_id) (response_encode (response_to h receipt.0 receipt.1)) w w')

  finish_login :
      (h : ControlHead) (cover : Satellite) (w : World server.Db)
      → cover.sat_cover_num ≡ length cover.sates_param
      → After
          ((if cover.sat_cover_num == 0 then pure tt else do
            conn ← connect
            if not conn then pure tt else do
              receipt ← login_receipt env (htonl h.from_id) cover
              close
              send_message env
                  (htonl h.from_id)
                  (response_encode (response_to h receipt.0 receipt.1))
                  cover.sates_param
                  (pos 10)
              pure tt)
            w)
          (λ _ w'. LoginDone h w w' cover)
  unfolding run
  finish_login h cover w n =
      After-if_eq (cover.sat_cover_num == 0) _ _ w _ (λ e. inl (ground arith, refl))
        λ e. After-bind (connect w) _ _ _ (connect_lem w) λ conn w₁ (c, (pool, e₁)).
          rw (c, e₁)
            (After-bind (login_receipt env (htonl h.from_id) cover _) _ _ _
              (login_receipt_lem (htonl h.from_id) cover _ n)
              λ receipt w₂ (sent, outcome).
                After-bind
                  (send_message env (htonl h.from_id)
                    (response_encode (response_to h receipt.0 receipt.1)) cover.sates_param (pos 10)
                    (record w₂ { held = w₂.held - 1 }))
                  _ _ _ (send_message_lem env (htonl h.from_id) _ cover.sates_param (pos 10) _)
                  λ _ w₃ (same, to). inr (receipt, rw same outcome, rw sent at to))

  pub process_login_lem :
      (h : ControlHead) (w : World server.Db)
      → After
          (process_login env h w)
          (λ _ w'. (cover : Satellite) × (read_cover h.content ≡ ok cover) × LoginDone h w w' cover)
  unfolding process_login run
  process_login_lem h w = elim (Result-cases (read_cover h.content)) [
    | inl (cover, e) ↦ rw (e) (
        After-map _ (λ _ w'. LoginDone h w w' cover)
          (λ _ w'. (c : Satellite) × ((Result.ok cover) ≡ ok c) × LoginDone h w w' c)
          (finish_login h cover w (Yields-ok _ cover _ e (read_cover-length h.content)))
          λ _ w' done. (cover, refl, done))
    | inr (x, e) ↦ rw (e) tt
  ]
