-- ===== src/Qos.antt =====
-- src/tools/qos_send_daemon.cpp, with the class of qos_send_daemon.h.
pub mod Connections
pub mod Rounds
pub mod Delivery
use short_message.Prelude.{
  ℕ, ◌+◌, ◌||◌, if◌then◌else◌, Bool, true, false, Option, none, some, List, [], ◌∷◌,
}
use short_message.Prelude.Int.{ℤ, pos, int32, u32}
use short_message.Machine.{ok, fault, spinning}
use short_message.Protocol.{SateParam, MessageItem}
use short_message.Coder.{item_encode}
use short_message.Database.{get_sate_cover, get_all_offline_message}
use short_message.World.{Env, M, pure, ◌>>=◌, ◌>>◌, lift, now, query, update, connect, close}
use short_message.Send.{send_message}

pub record QosSendDaemon : Type 0 where
  pub stop : Bool
  pub max_retry_count : ℤ
  pub check_interval : ℤ
  pub msg_interval : ℤ

-- The setting "Qos"; `none` is a `lookupValue` that returns false.
pub record QosSetting : Type 0 where
  pub max_retry_count : Option ℤ
  pub check_interval : Option ℤ
  pub msg_interval : Option ℤ

abbrev pub new_daemon : QosSendDaemon
new_daemon = record {
  stop = false;
  max_retry_count = pos 0;
  check_interval = pos 0;
  msg_interval = pos 0;
}

-- `QosSendDaemon::Init`; a value that is found is kept also where a later one is missing.
unfoldable pub init : QosSetting → QosSendDaemon → Bool × QosSendDaemon
init s d = elim s.max_retry_count [
  | none ↦ (false, d)
  | some m ↦ elim s.check_interval [
    | none ↦ (false, record d { max_retry_count = m })
    | some c ↦ elim s.msg_interval [
      | none ↦ (false, record d { max_retry_count = m; check_interval = c })
      | some i ↦
          (true, record { stop = false; max_retry_count = m; check_interval = c; msg_interval = i })
    ]
  ]
]

unfoldable pub stop : QosSendDaemon → QosSendDaemon
stop d = record d { stop = true }

module _ (env : Env) where
  open env use {server, server.{Db}}

  -- The loop body for one message.
  send_to : MessageItem → List SateParam → M Db (Unit {0})
  send_to message [] = pure tt
  send_to message (s ∷ sates) = do
    str ← lift (item_encode message)
    send_message env message.to_id str (s ∷ sates) (pos 5)
    pure tt

  unfoldable pub send_one : MessageItem → M Db (Unit {0})
  unfolding send_to
  send_one message = do
    sates ← query (get_sate_cover server (int32 message.to_id))
    send_to message sates

  unfoldable pub send_all : List MessageItem → M Db (Unit {0})
  send_all [] = pure tt
  send_all (message ∷ messages) = do send_one message; send_all messages

  -- One round of the loop of `Start`, up to `sleep`.
  unfoldable pub round : QosSendDaemon → M Db (Unit {0})
  round d = do
    connect
    t ← now
    messages ← update (get_all_offline_message server t d.max_retry_count d.msg_interval)
    send_all messages
    close

  -- `sleep(check_interval_)`, whose argument is unsigned.
  unfoldable pub sleep : ℤ → M Db (Unit {0})
  sleep interval w = ok (tt, record w { now = w.now + u32 interval })

  -- `Start`. Each event tells whether another thread has called `Stop` when `while (!stop_)` is
  -- tested; a list that ends before that is a loop that does not end.
  unfoldable pub start : QosSendDaemon → List Bool → M Db (Unit {0})
  unfolding sleep
  start d [] = lift (fault spinning)
  start d (stopped ∷ events) =
      let rest = start d events in
      if d.stop || stopped then pure tt else do round d; sleep d.check_interval; rest
