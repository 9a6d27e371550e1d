-- ===== src/Send.antt =====
-- src/workmanager/send_helper.cpp
pub mod Route
pub mod Sends
pub mod Table
pub mod Reordered
use short_message.Prelude.{
  ℕ, Bool, true, false, ◌&&◌, Option, none, some, List, [], ◌∷◌, ◌++◌, Bytes, if◌then◌else◌,
}
use short_message.Prelude.Int.{ℤ, pos, negsuc, int32, int_eq}
use short_message.Float.{gt, minus_one}
use short_message.Protocol.{SateParam}
use short_message.World.{Address, AccessMessage, Env, M, pure, ◌>>=◌, ◌>>◌, schedule, transmit}

-- schedule_address_.find
unfoldable pub find_address : ℤ → List (ℤ × Address) → Option Address
find_address b [] = none
find_address b ((k, a) ∷ table) = if int_eq k b then some a else find_address b table

abbrev pub is_scheduled : ℤ → List (ℤ × Address) → Bool
is_scheduled b table = elim (find_address b table) [ none ↦ false | some a ↦ true ]

-- An element of the SendHelper setting; `none` is a `lookupValue` that returns false.
pub record SendSetting : Type 0 where
  pub beamid : Option ℤ
  pub port : Option ℤ
  pub ip : Option Bytes

-- `std::map::insert` keeps the entry of a key that is there.
unfoldable pub insert_address : ℤ → Address → List (ℤ × Address) → List (ℤ × Address)
insert_address b a table = if is_scheduled b table then table else table ++ (b, a) ∷ []

unfoldable pub init_entry : SendSetting → Option (ℤ × Address)
init_entry s = elim s.beamid [
  | none ↦ none
  | some b ↦ elim s.port [
    | none ↦ none
    | some port ↦ elim s.ip [ none ↦ none | some ip ↦ some (b, record { ip = ip; port = port }) ]
  ]
]

-- `SendHelper::Init`: the result, and the table as the entries before a bad one leave it.
unfoldable pub init : List SendSetting → List (ℤ × Address) → Bool × List (ℤ × Address)
init [] table = (true, table)
init (s ∷ settings) table = elim (init_entry s) [
  | none ↦ (false, table)
  | some (b, a) ↦ init settings (insert_address b a table)
]

-- cur_snr, cur_sate_id and cur_beam_id of the search loop
pub record Best : Type 0 where
  pub snr : ℕ
  pub sate_id : ℤ
  pub beam_id : ℤ

abbrev pub no_sate : Best
no_sate = record { snr = minus_one; sate_id = negsuc 0; beam_id = negsuc 0 }

-- One round of the loop over the satellites.
unfoldable pub better : List (ℤ × Address) → Best → SateParam → Best
better table cur sate =
    if gt sate.snr cur.snr && is_scheduled sate.beam_id table
    then record { snr = sate.snr; sate_id = sate.sate_id; beam_id = sate.beam_id }
    else cur

unfoldable pub best_sate : List (ℤ × Address) → Best → List SateParam → Best
best_sate table cur [] = cur
best_sate table cur (sate ∷ sates) = best_sate table (better table cur sate) sates

abbrev pub access_message : ℕ → Best → ℤ → Bytes → AccessMessage
access_message user_id best level buf = record {
  uid = int32 user_id;
  sate_id = best.sate_id;
  beam_id = best.beam_id;
  level = level;
  content = buf;
}

-- What operator[] of the map gives for a beam that is not there: a new Address; its port is not set.
abbrev address_of : Option Address → Address
address_of none = record { ip = []; port = pos 0 }
address_of (some a) = a

module _ (env : Env) where
  open env use {server.{Db}, opens, answers}

  -- `open`, `LogicToAccess` and `close` under the catch-all handler.
  call_access : Address → AccessMessage → M Db Bool
  call_access a m = if opens a then (do transmit a m; pure (answers a m)) else pure false

  unfoldable pub send_message : ℕ → Bytes → List SateParam → ℤ → M Db Bool
  unfolding call_access
  send_message user_id buf sates level = do
    table ← schedule
    let best = best_sate table no_sate sates
    if int_eq best.sate_id (negsuc 0)
        then pure false
        else call_access (address_of (find_address best.beam_id table))
            (access_message user_id best level buf)
