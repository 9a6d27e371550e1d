-- ===== src/Tests/Delivering.antt =====
-- A cached message whose receiver is covered, through a round of the QoS daemon.
use mathlib.Core.List.{mem-cons_self}
use short_message.Prelude.{◌≡◌, refl, arith, List, [], ◌∷◌, ◌++◌, All, replicate, map, some}
use short_message.Prelude.Int.{pos}
use short_message.Machine.{ok}
use short_message.Float.{gt, of_int, to_int}
use short_message.Protocol.{MessageItem}
use short_message.Database.{
  item_of_row, get_all_offline_message, take_due, get_sate_cover, cover_params,
}
use short_message.Database.Laws.{retried}
use short_message.World.{Address, AccessMessage}
use short_message.Send.{find_address}
use short_message.Qos.{round}
use short_message.Qos.Delivery.{IsReachable, IsPosted, Accepts, round_delivers}
use short_message.Tests.Tables.{Tables, memory, office, world_of}
use short_message.Tests.Retrying.{daemon, tables, waiting}

-- User 2 has SNR 2.0 on beam 1.
abbrev covered_tables : Tables
covered_tables = record tables { covers = (pos 2, 0x40000000 ∷ replicate 9 0xbf800000) ∷ [] }

abbrev due : List MessageItem × Tables
due = get_all_offline_message memory 1000 (pos 5) (pos 30) covered_tables

selected : memory.select_due (pos 5) 1000 covered_tables ≡ some (waiting ∷ [])
selected = refl

accepts : Accepts office
accepts k time f t n db e = ground arith

round_delivers_example :
    (calls : List (Address × AccessMessage)) × (round office daemon (world_of covered_tables)
      ≡ ok (tt, record (world_of covered_tables) { db = due.1; pool = []; sent = [] ++ calls }))
    × All
        (λ m.
          IsReachable office due.1 (world_of covered_tables).schedule_address m → IsPosted calls m)
        (map item_of_row (waiting ∷ []))
unfolding get_all_offline_message take_due
round_delivers_example =
    round_delivers office daemon (world_of covered_tables) [] (waiting ∷ []) refl (refl, (refl, tt))
      selected accepts (((omega arith, tt), omega arith), tt)

-- The message that waits can be sent.
reachable : All (IsReachable office due.1 (world_of covered_tables).schedule_address) due.0
unfolding get_all_offline_message take_due retried get_sate_cover cover_params gt find_address
    of_int to_int
reachable =
    ((record { sate_id = pos 1; beam_id = pos 1; snr = 0x40000000 }, mem-cons_self, refl, refl), tt)
