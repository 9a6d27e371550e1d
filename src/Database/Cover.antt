-- ===== src/Database/Cover.antt =====
-- What `UpdateSateCover` of src/tools/database.cpp writes, and what `GetSateCover` makes of a row.
use short_message.Prelude.{
  ℕ, zero, suc, ◌+◌, ◌<◌, ◌≡◌, refl, ap, ◌∙◌, ◌⊎◌, inl, inr, Bool, true, false, ◌&&◌, List, [], ◌∷◌,
  arith, length, get_or, set, replicate, if◌then◌else◌, Bool-cases, length-set, ◌==◌, get_or-set,
  get_elem?, Option, none, some,
}
use short_message.Prelude.Int.{ℤ, pos, negsuc, int_eq}
use short_message.Machine.{ok, fault, aborted}
use short_message.Float.{minus_one, to_int, of_int}
use short_message.Protocol.{SateParam, Satellite}
use short_message.Database.Sql.{Server, update_sate_cover}
use short_message.Database.{
  is_beam, beam_index, fill_snr, attempt, update_cover, get_sate_cover, cover_params, max_beam_num,
}

-- The SNR of the last satellite with beam `b` in a list, `d` if there is none.
abbrev pub last_snr : ℤ → ℕ → List SateParam → ℕ
last_snr b d [] = d
last_snr b d (p ∷ params) = last_snr b (if int_eq p.beam_id b then p.snr else d) params

-- All beam ids lie in 1 … 10.
abbrev pub all_beams : List SateParam → Bool
all_beams [] = true
all_beams (p ∷ params) = is_beam p.beam_id && all_beams params

-- What the loop leaves in `temp_snr` where all beams are in range.
record Filled (params : List SateParam) (start : List ℕ) (snrs : List ℕ) : Type 0 where
  size : length snrs ≡ length start
  last : (b : ℕ) → b < 10 → get_or snrs b 0 ≡ last_snr (pos (suc b)) (get_or start b 0) params

beam_index-lt : (i : ℤ) → is_beam i ≡ true → beam_index i < 10
beam_index-lt (pos n) h = ground arith
beam_index-lt (negsuc n) h = ground arith

beam_index-eq : (i : ℤ) (b : ℕ) → is_beam i ≡ true → int_eq i (pos (suc b)) ≡ (beam_index i == b)
beam_index-eq (pos n) b h = ground arith
beam_index-eq (negsuc n) b h = ground arith

fill_snr-Filled :
    (params : List SateParam) (start : List ℕ)
    → length start ≡ 10
    → all_beams params ≡ true
    → (snrs : List ℕ) × (fill_snr (length params) params start ≡ ok snrs) × Filled params start snrs
unfolding fill_snr
fill_snr-Filled [] start l h = (start, refl, record { size = refl; last = λ b lt. refl })
fill_snr-Filled (p ∷ params) start l h =
    let in_range : (is_beam p.beam_id ≡ true) × (all_beams params ≡ true) = ground arith in
    let start' = set start (beam_index p.beam_id) p.snr in
    let (snrs, e, f) =
      fill_snr-Filled params start' (length-set start (beam_index p.beam_id) p.snr ∙ l)
        in_range.1 in
    (
      snrs,
      rw in_range.0 e,
      record {
        size = f.size ∙ length-set start (beam_index p.beam_id) p.snr;
        last = λ b lt.
            f.last b lt
            ∙ ap (λ d. last_snr (pos (suc b)) d params)
                (get_or-set start (beam_index p.beam_id) b p.snr 0
                    (rw l (beam_index-lt p.beam_id in_range.0))
                  ∙ rw (beam_index-eq p.beam_id b in_range.0));
      },
    )

fill_snr-aborted :
    (params : List SateParam) (start : List ℕ)
    → all_beams params ≡ false
    → fill_snr (length params) params start ≡ fault aborted
unfolding fill_snr
fill_snr-aborted [] start h = cc
fill_snr-aborted (p ∷ params) start h =
    ground (arith, fill_snr-aborted params (set start (beam_index p.beam_id) p.snr))

get_or-replicate : (n b v : ℕ) → b < n → get_or (replicate n v) b 0 ≡ v
get_or-replicate zero b v h = absurd (omega arith)
get_or-replicate (suc n) zero v h = refl
get_or-replicate (suc n) (suc b) v h = get_or-replicate n b v (omega arith)

-- The statement that `UpdateSateCover` executes for a user.
pub record Writes (params : List SateParam) (snrs : List ℕ) : Type 0 where
  pub ten : length snrs ≡ 10
  pub column : (b : ℕ) → b < 10 → get_or snrs b 0 ≡ last_snr (pos (suc b)) minus_one params

module _ (server : Server) where
  open server use {Db}

  -- `UpdateSateCover`, for a cover with as many satellites as it says: if every beam id is in
  -- 1 … 10, one UPDATE of the user's row with ten SNRs is executed, where column SNR_b gets the SNR
  -- of the last satellite with beam b, and -1 if there is none; otherwise the assertion ends the
  -- program, and nothing is executed.
  pub update_cover_lem :
      (user_id : ℕ) (cover : Satellite) (db : Db)
      → cover.sat_cover_num ≡ length cover.sates_param
      → ((all_beams cover.sates_param ≡ true)
          × ((snrs : List ℕ) × Writes cover.sates_param snrs
              × (update_cover server user_id cover db
                  ≡ ok (attempt server (update_sate_cover snrs user_id) db))))
        ⊎ ((all_beams cover.sates_param ≡ false)
            × (update_cover server user_id cover db ≡ fault aborted))
  unfolding update_cover
  update_cover_lem user_id cover db n = elim (Bool-cases (all_beams cover.sates_param)) [
    | inl good ↦
        let (snrs, e, f) =
          fill_snr-Filled cover.sates_param (replicate max_beam_num minus_one) refl good in
        inl (
          good,
          (
            snrs,
            record {
              ten = f.size;
              column = λ b lt.
                  f.last b lt
                  ∙ ap (λ d. last_snr (pos (suc b)) d cover.sates_param)
                      (get_or-replicate 10 b minus_one lt);
            },
            rw (n, e),
          ),
        )
    | inr bad ↦
        inr (bad, rw (n, fill_snr-aborted cover.sates_param (replicate max_beam_num minus_one) bad))
  ]

-- The SNR of the first satellite with a given beam.
abbrev pub snr_at : ℤ → List SateParam → Option ℕ
snr_at b [] = none
snr_at b (p ∷ params) = if int_eq p.beam_id b then some p.snr else snr_at b params

module _ (server : Server) where
  open server use {Db, Double, is_positive, to_float, select_sate_cover}

  snr_at_below :
      (j i : ℕ) (columns : List Double)
      → j < i
      → snr_at (pos j) (cover_params server i columns) ≡ none
  unfolding cover_params
  snr_at_below j i [] lt = refl
  snr_at_below j i (c ∷ columns) lt = ground (arith, snr_at_below j (i + 1) columns)

  cover_params-column :
      (i b j : ℕ) (columns : List Double) (c : Double)
      → i + b ≡ j
      → get_elem? columns b ≡ some c
      → snr_at (pos j) (cover_params server i columns)
        ≡ (if is_positive c then some (of_int (to_int (to_float c))) else none)
  unfolding cover_params
  cover_params-column i b j [] c s e = cc
  cover_params-column i zero j (x ∷ columns) c s e =
      let same : x ≡ c = cc in
      rw same (elim (Bool-cases (is_positive c)) [
        | inl up ↦ rw up (ground arith)
        | inr down ↦ rw down (snr_at_below j (i + 1) columns (omega arith))
      ])
  cover_params-column i (suc b) j (x ∷ columns) c s e =
      let rest = cover_params-column (i + 1) b j columns c (omega arith) e in
      elim (Bool-cases (is_positive x)) [
        | inl up ↦ rw up (ground (arith, rest))
        | inr down ↦ rw down rest
      ]

  -- `GetSateCover`, from the first row of the query's result: the satellite of beam b is there
  -- exactly if column SNR_b is positive, and its SNR is the column's value cast to an int and back.
  pub get_sate_cover_lem :
      (user_id : ℤ) (db : Db) (row : List Double) (rows : List (List Double)) (b : ℕ) (c : Double)
      → select_sate_cover user_id db ≡ some (row ∷ rows)
      → get_elem? row b ≡ some c
      → snr_at (pos (suc b)) (get_sate_cover server user_id db)
        ≡ (if is_positive c then some (of_int (to_int (to_float c))) else none)
  unfolding get_sate_cover
  get_sate_cover_lem user_id db row rows b c q e =
      rw q (cover_params-column 1 b (suc b) row c (omega arith) e)

  -- Two SNRs with one whole part cannot be told apart once they have been through the database.
  get_sate_cover_truncates :
      (user_id : ℤ) (db : Db) (row : List Double) (rows : List (List Double)) (a b : ℕ)
      (c d : Double)
      → select_sate_cover user_id db ≡ some (row ∷ rows)
      → get_elem? row a ≡ some c
      → get_elem? row b ≡ some d
      → is_positive c ≡ true
      → is_positive d ≡ true
      → to_int (to_float c) ≡ to_int (to_float d)
      → snr_at (pos (suc a)) (get_sate_cover server user_id db)
        ≡ snr_at (pos (suc b)) (get_sate_cover server user_id db)
  get_sate_cover_truncates user_id db row rows a b c d q ea eb pc pd same = rw (
    get_sate_cover_lem user_id db row rows a c q ea,
    get_sate_cover_lem user_id db row rows b d q eb,
    pc,
    pd,
    same,
  )
