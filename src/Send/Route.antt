-- ===== src/Send/Route.antt =====
-- Which satellite `SendMessage` of src/workmanager/send_helper.cpp picks, and what it sends.
use mathlib.Core.List.{Mem, mem-cons_self, mem-cons_of_mem}
use mathlib.Core.Bool.{false≢true}
use mathlib.Core.HLevel.{¬_prop}
use short_message.Prelude.{
  ℕ, ◌≤◌, ◌<◌, ◌≡◌, ◌≢◌, refl, ◌⊎◌, inl, inr, true, false, some, List, [], ◌∷◌, ◌++◌, Bytes, arith,
  if◌then◌else◌, All, All-mem, Bool-cases, Option-cases,
}
use short_message.Prelude.Int.{ℤ, negsuc, int_eq, int_eq_iff}
use short_message.Machine.{ok}
use short_message.Float.{gt, rank, is_nan, minus_one}
use short_message.Protocol.{SateParam}
use short_message.World.{Env, World, Address, run}
use short_message.Send.{
  Best, no_sate, better, best_sate, find_address, is_scheduled, access_message, send_message,
}

abbrev pub of_sate : SateParam → Best
of_sate s = record { snr = s.snr; sate_id = s.sate_id; beam_id = s.beam_id }

gt-rank : (a b : ℕ) → gt a b ≡ true → (is_nan a ≡ false) × (is_nan b ≡ false) × (rank b < rank a)
unfolding gt
gt-rank a b h = ground arith

gt_of_rank-le : (a b : ℕ) → rank a ≤ rank b → gt a b ≡ false
unfolding gt
gt_of_rank-le a b h = ground arith

-- What does not beat a number does not beat a greater one.
gt_mono : (a b c : ℕ) → is_nan b ≡ false → rank b ≤ rank c → gt a b ≡ false → gt a c ≡ false
unfolding gt
gt_mono a b c n le h = ground arith

gt_trans : (a b c : ℕ) → gt a b ≡ true → gt b c ≡ true → gt a c ≡ true
unfolding gt
gt_trans a b c h k = ground arith

module _ (table : List (ℤ × Address)) where
  -- `s` does not beat `snr`.
  abbrev Bounded : ℕ → SateParam → Type 0
  Bounded snr s = is_scheduled s.beam_id table ≡ true → gt s.snr snr ≡ false

  better_cases :
      (cur : Best) (s : SateParam)
      → ((better table cur s ≡ of_sate s)
          × (gt s.snr cur.snr ≡ true)
          × (is_scheduled s.beam_id table ≡ true))
        ⊎ ((better table cur s ≡ cur) × Bounded cur.snr s)
  unfolding better
  better_cases cur s = ground arith

  record Bound (cur : Best) (sates : List SateParam) (best : Best) : Type 0 where
    number : is_nan best.snr ≡ false
    above : rank cur.snr ≤ rank best.snr
    all : All (Bounded best.snr) sates

  -- From a current value on, the loop ends at least as high, and no scheduled satellite beats it.
  best_sate-Bound :
      (cur : Best) (sates : List SateParam)
      → is_nan cur.snr ≡ false
      → Bound cur sates (best_sate table cur sates)
  unfolding best_sate
  best_sate-Bound cur [] n = record { number = n; above = omega arith; all = tt }
  best_sate-Bound cur (s ∷ sates) n = elim (better_cases cur s) [
    | inl (e, g, sched) ↦
        let (num, _, higher) = gt-rank s.snr cur.snr g in
        let rest = best_sate-Bound (of_sate s) sates num in
        rw e (record {
          number = rest.number;
          above = omega arith;
          all = (λ _. gt_of_rank-le _ _ rest.above, rest.all);
        })
    | inr (e, low) ↦
        let rest = best_sate-Bound cur sates n in
        rw e (record {
          number = rest.number;
          above = rest.above;
          all = (λ sched. gt_mono _ _ _ n rest.above (low sched), rest.all);
        })
  ]

  -- Where it moves, it moves to a scheduled satellite of the list that beats the start.
  best_sate_source :
      (cur : Best) (sates : List SateParam)
      → (best_sate table cur sates ≡ cur)
        ⊎ ((s : SateParam) × Mem s sates
            × (gt s.snr cur.snr ≡ true)
            × (is_scheduled s.beam_id table ≡ true)
            × (best_sate table cur sates ≡ of_sate s))
  unfolding best_sate
  best_sate_source cur [] = inl refl
  best_sate_source cur (s ∷ sates) = elim (better_cases cur s) [
    | inl (e, g, sched) ↦ rw e (elim (best_sate_source (of_sate s) sates) [
      | inl same ↦ inr (s, mem-cons_self, g, sched, same)
      | inr (t, m, g', sched', e') ↦
          inr (t, mem-cons_of_mem s m, gt_trans t.snr s.snr cur.snr g' g, sched', e')
    ])
    | inr (e, low) ↦ rw e (elim (best_sate_source cur sates) [
      | inl same ↦ inl same
      | inr (t, m, g', sched', e') ↦ inr (t, mem-cons_of_mem s m, g', sched', e')
    ])
  ]

address_of_scheduled :
    (b : ℤ) (table : List (ℤ × Address))
    → is_scheduled b table ≡ true
    → (a : Address) × (find_address b table ≡ some a)
address_of_scheduled b table h = elim (Option-cases (find_address b table)) [
  | inl e ↦ absurd (false≢true (rw (e, is_scheduled) at h))
  | inr found ↦ found
]

not-minus_one : (i : ℤ) → i ≢ negsuc 0 → int_eq i (negsuc 0) ≡ false
not-minus_one i ne = ground (arith, int_eq_iff i (negsuc 0))

module _ (env : Env) (user_id : ℕ) (buf : Bytes) (sates : List SateParam) (level : ℤ)
    (w : World env.Db) where
  open w use {schedule_address as table}

  -- `SendMessage` calls the access server of `s`, at `a`: the call is made if the socket opens, and
  -- its result is that of `SendMessage`.
  abbrev pub Routes : SateParam → Address → Type 0
  Routes s a =
      let m = access_message user_id (of_sate s) level buf in
      send_message env user_id buf sates level w ≡ (
        if env.opens a
        then ok (env.answers a m, record w { sent = w.sent ++ (a, m) ∷ [] })
        else ok (false, w))

  Routes_lem :
      (s : SateParam) (a : Address)
      → best_sate table no_sate sates ≡ of_sate s
      → s.sate_id ≢ negsuc 0
      → find_address s.beam_id table ≡ some a
      → Routes s a
  unfolding send_message run
  Routes_lem s a e ne f =
      rw (e, not-minus_one s.sate_id ne, f)
        (elim (Bool-cases (env.opens a)) [ inl o ↦ rw o | inr o ↦ rw o ])

  -- Among satellites whose id is not -1 the message goes, in one call, to the access server of one
  -- that is in the list, has a configured beam, and has an SNR above -1 that no other satellite with
  -- a configured beam exceeds. Where no satellite has a configured beam and an SNR above -1, nothing
  -- is sent, and the result is false.
  pub send_message-Routes :
      All (λ s. s.sate_id ≢ negsuc 0) sates
      → (All (λ s. is_scheduled s.beam_id table ≡ true → gt s.snr minus_one ≡ false) sates
          × (send_message env user_id buf sates level w ≡ ok (false, w)))
        ⊎ ((s : SateParam) × (a : Address) × Mem s sates
            × (find_address s.beam_id table ≡ some a)
            × (gt s.snr minus_one ≡ true)
            × All (λ t. is_scheduled t.beam_id table ≡ true → gt t.snr s.snr ≡ false) sates
            × Routes s a)
  unfolding send_message run
  send_message-Routes ids = elim (best_sate_source table no_sate sates) [
    | inl same ↦
        inl (rw same at (best_sate-Bound table no_sate sates refl).all, rw (same, if◌then◌else◌))
    | inr (s, m, g, sched, e) ↦
        let (a, f) = address_of_scheduled s.beam_id table sched in
        inr (
          s,
          a,
          m,
          f,
          g,
          rw e at (best_sate-Bound table no_sate sates refl).all,
          Routes_lem s a e (All-mem (λ t. t.sate_id ≢ negsuc 0) (λ t. ¬_prop) s sates ids m) f,
        )
  ]
