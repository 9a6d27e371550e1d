-- ===== src/Tests/Retrying.antt =====
-- A round of the QoS daemon over one cached message that is due.
use short_message.Prelude.{arith, ◌≡◌, refl, [], ◌∷◌, true, false}
use short_message.Prelude.Int.{pos}
use short_message.Database.Sql.{CacheRow}
use short_message.Database.{get_all_offline_message, take_due}
use short_message.Database.Laws.{retried}
use short_message.World.{After, Total}
use short_message.Qos.{QosSendDaemon, new_daemon, round, start}
use short_message.Qos.Rounds.{SameMessages, round_keeps_messages, start_keeps_messages, round-Total}
use short_message.Tests.Tables.{Tables, memory, memory-IsMySql, office, world_of, no_tables}

abbrev pub waiting : CacheRow
waiting = record {
  given = record {
    from_user = pos 1;
    to_user = pos 2;
    type = pos 0x60;
    text = 98 ∷ [];
    recv_time = 900;
    frame_id = pos 3;
    retry_time = 910;
  };
  retry_num = pos 0;
}

abbrev pub tables : Tables
tables = record no_tables { cache = waiting ∷ [] }

abbrev pub daemon : QosSendDaemon
daemon = record new_daemon {
  max_retry_count = pos 5;
  check_interval = pos 10;
  msg_interval = pos 30;
}

-- The message is taken once, and its next retry is 30 seconds from now.
taken_once : get_all_offline_message memory 1000 (pos 5) (pos 30) tables ≡ (
  record { to_id = 2; from_id = 1; frame_id = 3; type = 0x60; retain = 0; content = 98 ∷ [] } ∷ [],
  record tables {
    cache = record { given = record waiting.given { retry_time = 1030 }; retry_num = pos 1 } ∷ [];
  },
)
unfolding get_all_offline_message take_due retried
taken_once = refl

round_keeps_messages_example :
    After
      (round office daemon (world_of tables))
      (λ _ w'. SameMessages office memory-IsMySql tables w'.db)
round_keeps_messages_example = round_keeps_messages office memory-IsMySql daemon (world_of tables)

round-Total_example : Total (round office daemon (world_of tables))
unfolding get_all_offline_message take_due
round-Total_example =
    round-Total office daemon (world_of tables) [] refl (((omega arith, tt), omega arith), tt)

-- One round, and then the call of `Stop`.
start_keeps_messages_example :
    After
      (start office daemon (false ∷ true ∷ []) (world_of tables))
      (λ _ w'. SameMessages office memory-IsMySql tables w'.db)
start_keeps_messages_example =
    start_keeps_messages office memory-IsMySql daemon (false ∷ true ∷ []) (world_of tables)
