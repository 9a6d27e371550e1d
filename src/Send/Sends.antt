-- ===== src/Send/Sends.antt =====
-- What `SendMessage` leaves of the world, whatever it chooses.
use short_message.Prelude.{◌≡◌, refl, ◌⊎◌, inl, inr, ℕ, false, List, [], ◌∷◌, ◌++◌, Bytes}
use short_message.Prelude.Int.{ℤ, int32, int_eq, negsuc}
use short_message.Protocol.{SateParam}
use short_message.World.{
  Address, AccessMessage, Env, World, Total, After, run, pure, transmit, ◌>>◌,
}
use short_message.World.Frame.{After-if, After-map, Total-if, Frames, frame_rules}
use short_message.Send.{
  best_sate, no_sate, access_message, address_of, call_access, find_address, send_message,
}

-- At most one message more has been sent, and it goes to this user with this content.
abbrev pub SentTo : {Db : Type 0} → ℕ → Bytes → World Db → World Db → Type 0
SentTo user_id buf w w' =
    (w'.sent ≡ w.sent)
    ⊎ ((a : Address) × (m : AccessMessage) × (w'.sent ≡ w.sent ++ (a, m) ∷ [])
        × (m.uid ≡ int32 user_id)
        × (m.content ≡ buf))

module _ (env : Env) where
  pub send_message-Frames :
      (user_id : ℕ) (buf : Bytes) (sates : List SateParam) (level : ℤ)
      → Frames (send_message env user_id buf sates level)
  unfolding send_message call_access
  send_message-Frames user_id buf sates level = search frame_rules depth 8

module _ (env : Env) (user_id : ℕ) (buf : Bytes) (sates : List SateParam) (level : ℤ)
    (w : World env.Db) where
  call_access_lem :
      (a : Address) (m : AccessMessage)
      → After
          (call_access env a m w)
          (λ _ w'. (w'.db ≡ w.db) × ((w'.sent ≡ w.sent) ⊎ (w'.sent ≡ w.sent ++ (a, m) ∷ [])))
  unfolding call_access run
  call_access_lem a m =
      After-if (env.opens a) (do transmit a m; pure (env.answers a m)) (pure false) w _
        (refl, inr refl) (refl, inl refl)

  pub send_message_lem :
      After
        (send_message env user_id buf sates level w)
        (λ _ w'. (w'.db ≡ w.db) × SentTo user_id buf w w')
  unfolding send_message run
  send_message_lem =
      let best = best_sate w.schedule_address no_sate sates in
      let a = address_of (find_address best.beam_id w.schedule_address) in
      let m = access_message user_id best level buf in
      After-if (int_eq best.sate_id (negsuc 0)) (pure false) (call_access env a m) w _
        (refl, inl refl)
        (After-map (call_access env a m w) _ _ (call_access_lem a m) λ _ w' (same, sent).
          (same, elim sent [ inl e ↦ inl e | inr e ↦ inr (a, m, e, refl, refl) ]))

  -- `SendMessage` catches what thrift throws.
  pub send_message-Total : Total (send_message env user_id buf sates level w)
  unfolding send_message call_access run
  send_message-Total =
      let best = best_sate w.schedule_address no_sate sates in
      let a = address_of (find_address best.beam_id w.schedule_address) in
      let m = access_message user_id best level buf in
      Total-if (int_eq best.sate_id (negsuc 0)) (pure false) (call_access env a m) w (_, _, refl)
        (Total-if (env.opens a) (do transmit a m; pure (env.answers a m)) (pure false) w
          (_, _, refl) (_, _, refl))
