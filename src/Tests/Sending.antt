-- ===== src/Tests/Sending.antt =====
-- Covers and the choice of a satellite at concrete inputs.
use mathlib.Core.List.{Mem}
use mathlib.Core.Quot
use short_message.Prelude.{
  ℕ, ◌≡◌, refl, ◌⊎◌, List, [], ◌∷◌, All, some, arith, true, false, replicate,
}
use short_message.Prelude.Int.{ℤ, pos}
use short_message.Machine.{ok, fault, aborted}
use short_message.Float.{gt, minus_one}
use short_message.Protocol.{SateParam, Satellite}
use short_message.Database.Sql.{update_sate_cover}
use short_message.Database.{update_cover, attempt}
use short_message.Database.Cover.{update_cover_lem, Writes, all_beams}
use short_message.World.{World, Address}
use short_message.Send
use short_message.Send.{
  SendSetting, send_message, find_address, is_scheduled, insert_address, init_entry,
}
use short_message.Send.Table.{AddressMap, chosen, Initialised}
use short_message.Send.Reordered.{swapped, init-Reordered}
use short_message.Send.Route.{Routes, send_message-Routes}
use short_message.Tests.Tables.{Tables, memory, office, world_of, no_tables}

-- SNR 4.4 on beam 1 and 4.9 on beam 2
abbrev two_sates : List SateParam
two_sates =
    record { sate_id = pos 1; beam_id = pos 1; snr = 0x408ccccd }
    ∷ record { sate_id = pos 1; beam_id = pos 2; snr = 0x409ccccd }
    ∷ []

abbrev cover : Satellite
cover = record { grand_cover = 0; sat_cover_num = 2; sates_param = two_sates }

abbrev w : World Tables
w = world_of no_tables

send_message-Routes_example :
    (All
        (λ s. is_scheduled s.beam_id w.schedule_address ≡ true → gt s.snr minus_one ≡ false)
        two_sates
      × (send_message office 7 [] two_sates (pos 5) w ≡ ok (false, w)))
    ⊎ ((s : SateParam) × (a : Address) × Mem s two_sates
        × (find_address s.beam_id w.schedule_address ≡ some a)
        × (gt s.snr minus_one ≡ true)
        × All
            (λ t. is_scheduled t.beam_id w.schedule_address ≡ true → gt t.snr s.snr ≡ false)
            two_sates
        × Routes office 7 [] two_sates (pos 5) w s a)
send_message-Routes_example =
    send_message-Routes office 7 [] two_sates (pos 5) w ((λ e. cc), ((λ e. cc), tt))

update_cover_lem_example :
    ((all_beams two_sates ≡ true)
      × ((snrs : List ℕ) × Writes two_sates snrs
          × (update_cover memory 7 cover no_tables
              ≡ ok (attempt memory (update_sate_cover snrs 7) no_tables))))
    ⊎ ((all_beams two_sates ≡ false) × (update_cover memory 7 cover no_tables ≡ fault aborted))
update_cover_lem_example = update_cover_lem memory 7 cover no_tables refl

-- The row that the update above writes for user 7.
abbrev row : List ℕ
row = 0x408ccccd ∷ 0x409ccccd ∷ replicate 8 minus_one

abbrev covered_tables : Tables
covered_tables = record no_tables { covers = (pos 7, row) ∷ [] }

abbrev entry : ℕ → SendSetting
entry n = record { beamid = some (pos n); port = some (pos 9000); ip = some (n ∷ []) }

abbrev table : List (ℤ × Address)
table =
    (pos 1, record { ip = 1 ∷ []; port = pos 9000 })
    ∷ (pos 2, record { ip = 2 ∷ []; port = pos 9000 })
    ∷ []

init-Reordered_example :
    Initialised (entry 1 ∷ (entry 2 ∷ [])) table
    × (u : List (ℤ × Address)) × Initialised (entry 2 ∷ (entry 1 ∷ [])) u
    × ◌≡◌ {A = AddressMap} (Quot.mk table) (Quot.mk u)
    × ((sates : List SateParam) → chosen table sates ≡ chosen u sates)
unfolding Send.init init_entry insert_address find_address
init-Reordered_example =
    init-Reordered (entry 1 ∷ (entry 2 ∷ [])) (entry 2 ∷ (entry 1 ∷ [])) table refl
      (swapped [] [] (entry 1) (entry 2) (λ e. ground arith))
