-- ===== src/Mobile/Changes.antt =====
-- What a logout and a change of cover do to the database, and what they are answered.
use short_message.Prelude.{
  ◌+◌, ◌≡◌, refl, ◌⊎◌, inl, inr, Bool, not, ◌==◌, some, replicate, if◌then◌else◌, ◌-◌, arith,
  length,
}
use short_message.Prelude.Int.{pos}
use short_message.Memory.{htonl}
use short_message.Float.{minus_one}
use short_message.Machine.{Result, ok, Result-cases, Yields-ok}
use short_message.Protocol.{ControlHead, Satellite}
use short_message.Coder.{response_encode}
use short_message.Database.Sql.{update_sate_cover}
use short_message.Database.{update_cover, max_beam_num}
use short_message.World.{
  Env, World, ◌>>=◌, ◌>>◌, pure, update_or_fault, After, run, updated, connect, close,
}
use short_message.World.Frame.{After-if_eq, After-bind, After-map, connect_lem}
use short_message.Send.{send_message}
use short_message.Send.Sends.{SentTo, send_message_lem}
use short_message.Mobile.{response_to, process_mobile_request}
use short_message.Mobile.Cover.{read_cover}
use short_message.Mobile.Login.{Update, updated_lem, read_cover-length}

module _ (env : Env) where
  open env use {server}

  -- The user's row has no beam any more, or the server has refused the UPDATE; the receipt is 0x02
  -- either way.
  abbrev pub LoggedOut : ControlHead → World server.Db → World server.Db → Type 0
  LoggedOut h w w' =
      ((w'.db ≡ w.db)
        ⊎ (server.execute (update_sate_cover (replicate max_beam_num minus_one) (htonl h.from_id))
              w.db
            ≡ some w'.db))
      × SentTo (htonl h.from_id) (response_encode (response_to h 0x02 0x00)) w w'

  -- The end of a change of cover whose request holds this cover: nothing has been done for a cover
  -- without satellites; or one UPDATE has written the cover's SNRs to the user's row, or the database
  -- is as it was, and the user has been sent at most the receipt 0x03.
  abbrev pub CoverChanged : ControlHead → World server.Db → World server.Db → Satellite → Type 0
  CoverChanged h w w' cover =
      ((cover.sat_cover_num ≡ 0) × (w' ≡ w))
      ⊎ (((done : Bool) × Update env (htonl h.from_id) cover w.db w'.db done)
          × SentTo (htonl h.from_id) (response_encode (response_to h 0x03 0x00)) w w')

  finish_change :
      (h : ControlHead) (cover : Satellite) (w : World server.Db)
      → cover.sat_cover_num ≡ length cover.sates_param
      → After
          ((if cover.sat_cover_num == 0 then pure tt else do
            conn ← connect
            if not conn then pure tt else do
              update_or_fault (update_cover server (htonl h.from_id) cover)
              close
              send_message env
                  (htonl h.from_id)
                  (response_encode (response_to h 0x03 0x00))
                  cover.sates_param
                  (pos 10)
              pure tt)
            w)
          (λ _ w'. CoverChanged h w w' cover)
  unfolding run
  finish_change h cover w n =
      After-if_eq (cover.sat_cover_num == 0) _ _ w _ (λ e. inl (ground arith, refl))
        λ e. After-bind (connect w) _ _ _ (connect_lem w) λ conn w₁ (c, (pool, e₁)).
          rw (c, e₁)
            (After-bind
              (updated (record w { pool = pool; held = w.held + 1 })
                (update_cover server (htonl h.from_id) cover w.db))
              _ _ _
              (updated_lem env (htonl h.from_id) cover (record w { pool = pool; held = w.held + 1 })
                n)
              λ done w₂ (sent, change).
                After-bind
                  (send_message env (htonl h.from_id) (response_encode (response_to h 0x03 0x00))
                    cover.sates_param (pos 10) (record w₂ { held = w₂.held - 1 }))
                  _ _ _ (send_message_lem env (htonl h.from_id) _ cover.sates_param (pos 10) _)
                  λ _ w₃ (same, to). inr ((done, rw same change), rw sent at to))

  -- A change of cover. If the handler ends, the request holds a cover that is read whole. For a cover
  -- without satellites nothing is done. Else one UPDATE has written the SNRs of the cover to the
  -- user's row, or the server has refused it and the database is as it was; in both cases at most one
  -- message has been sent, to the user, and it is the receipt 0x03.
  pub process_mobile_request_lem :
      (h : ControlHead) (w : World server.Db)
      → After (process_mobile_request env h w) (λ _ w'.
        (cover : Satellite) × (read_cover h.content ≡ ok cover) × CoverChanged h w w' cover)
  unfolding process_mobile_request run
  process_mobile_request_lem h w = elim (Result-cases (read_cover h.content)) [
    | inl (cover, e) ↦ rw (e) (
        After-map _ (λ _ w'. CoverChanged h w w' cover)
          (λ _ w'. (c : Satellite) × ((Result.ok cover) ≡ ok c) × CoverChanged h w w' c)
          (finish_change h cover w (Yields-ok _ cover _ e (read_cover-length h.content)))
          λ _ w' done. (cover, refl, done))
    | inr (x, e) ↦ rw (e) tt
  ]
