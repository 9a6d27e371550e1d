-- ===== src/Tests/Keeping.antt =====
-- A cached message while other requests are handled.
use mathlib.Core.List.{Mem, mem-cons_self}
use short_message.Prelude.{ℕ, ◌≡◌, refl, Bytes, List, [], ◌∷◌, true, false, All}
use short_message.Prelude.Int.{pos}
use short_message.Protocol.{control_head, user_ack_response}
use short_message.Database.Sql.{CacheRow, StoreRow}
use short_message.Database.{get_offline_message}
use short_message.Database.Kept.{letter, letters}
use short_message.Database.Pool.{get_connection}
use short_message.Machine.{ok}
use short_message.Message.{process_receipt, process_acknowledged}
use short_message.World.{World, run}
use short_message.Qos.{QosSendDaemon}
use short_message.Handler.{Uninitialised, access_to_logic, dispatch}
use short_message.Handler.Kept.{acknowledges}
use short_message.System.{
  Event, called, waited, pooled, Run, at_rest, and_then, call_step, wait_step, pool_step, IsSpared,
  Run-IsCached,
}
use short_message.Tests.Tables.{Tables, memory-IsMySql, office, world_of, no_tables}

-- A message of user 1 to user 2, frame 3.
abbrev pub cached : CacheRow
cached = record {
  given = record {
    from_user = pos 1;
    to_user = pos 2;
    type = pos 0x60;
    text = 98 ∷ [];
    recv_time = 900;
    frame_id = pos 3;
    retry_time = 910;
  };
  retry_num = pos 0;
}

-- The receipt of user 2 to user 1 for a frame.
abbrev pub receipt_for : ℕ → Bytes
receipt_for n = 0 ∷ 0 ∷ 0 ∷ 2 ∷ 0 ∷ 0 ∷ 0 ∷ 1 ∷ 0 ∷ 9 ∷ 0x80 ∷ 0 ∷ 0 ∷ n ∷ 0x60 ∷ 0 ∷ []

-- A message that user 1 has had before.
abbrev stored : StoreRow
stored = record {
  from_user = pos 2;
  to_user = pos 1;
  type = pos 0x40;
  text = 99 ∷ [];
  recv_time = 800;
  send_time = 800;
  frame_id = pos 1;
}

abbrev pub world : World Tables
world = world_of (record no_tables { cache = cached ∷ []; store = stored ∷ []; users = pos 7 ∷ [] })

abbrev pub stack : Uninitialised
stack = record { to_id = 0; from_id = 0; frame_id = 0; type = 0; retain = 0; recv_time = 0 }

abbrev daemon : QosSendDaemon
daemon = record {
  stop = false;
  max_retry_count = pos 3;
  check_interval = pos 1;
  msg_interval = pos 10;
}

-- User 2 acknowledges frame 4, time passes, and connections come back into the pool.
abbrev events : List Event
events = called (receipt_for 4) ∷ waited 20 ∷ pooled (true ∷ []) ∷ []

abbrev pub after_receipt : World Tables
after_receipt = record world { pool = [] }

abbrev last : World Tables
last = record world { now = 1020; pool = true ∷ [] }

pub handled : access_to_logic office stack (receipt_for 4) world ≡ ok (tt, after_receipt)
unfolding access_to_logic control_head dispatch process_receipt user_ack_response
    process_acknowledged run get_connection get_offline_message
handled = refl

Run-events : Run office stack daemon events world last
Run-events = and_then _ _ _ _ _ (call_step (receipt_for 4) world after_receipt handled) (
    and_then _ _ _ _ _ (wait_step 20 after_receipt)
      (and_then _ _ _ _ _ (pool_step (true ∷ []) _) (at_rest last)))

-- The receipt for frame 3 is the one that may take the message away.
acknowledged : acknowledges (receipt_for 3) cached ≡ true
unfolding control_head user_ack_response
acknowledged = refl

spared : All (IsSpared cached) events
unfolding control_head user_ack_response
spared = (refl, (tt, (tt, tt)))

Run-IsCached_example : Mem (letter cached) (letters last.db.cache)
Run-IsCached_example =
    Run-IsCached office memory-IsMySql stack daemon cached events world last Run-events spared
      mem-cons_self
