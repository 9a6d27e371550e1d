-- ===== src/Mobile/Cover.antt =====
-- The satellite cover at the end of a MobileRequest, as ProcessLogin and ProcessMobileRequest of
-- src/logic/mobile_manager.cpp read it.
use short_message.Prelude.{ℕ, zero, suc, List, [], ◌∷◌, Bytes, drop}
use short_message.Prelude.Int.{pos}
use short_message.Machine.{Result, ok, ◌>>=◌, in_bounds}
use short_message.Memory.{read8, read32}
use short_message.Protocol.{SateParam, Satellite}

-- timestamp, position, lng, lat and height stand before the `content` of a MobileRequest.
abbrev pub cover_offset : ℕ
cover_offset = 17

-- The loop that reads `sat_cover_num` satellites.
unfoldable pub read_params : ℕ → Bytes → Result (List SateParam)
read_params zero p = ok []
read_params (suc n) p = do
  (sate_id, p₁) ← in_bounds (read8 p)
  (beam_id, p₂) ← in_bounds (read8 p₁)
  (snr, p₃) ← in_bounds (read32 p₂)
  params ← read_params n p₃
  ok (record { sate_id = pos sate_id; beam_id = pos beam_id; snr = snr } ∷ params)

-- The code up to the end of the loop, from the content of the ControlHead; a cover of no satellite
-- is not read further.
unfoldable pub read_cover : Bytes → Result Satellite
read_cover content = do
  (grand_cover, p₁) ← in_bounds (read8 (drop cover_offset content))
  (sat_cover_num, p₂) ← in_bounds (read8 p₁)
  params ← read_params sat_cover_num p₂
  ok (record { grand_cover = grand_cover; sat_cover_num = sat_cover_num; sates_param = params })
