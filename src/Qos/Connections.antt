-- ===== src/Qos/Connections.antt =====
-- The database connections of the loop of src/tools/qos_send_daemon.cpp.
use short_message.Prelude.{◌||◌, refl, Bool, List, [], ◌∷◌}
use short_message.Prelude.Int.{ℤ}
use short_message.Protocol.{SateParam, MessageItem}
use short_message.World.{Env}
use short_message.World.Connections.{Keeps, Keeps-pure, Keeps-lift, Keeps-if, connection_rules}
use short_message.Handler.Connections.{send_message-Keeps}
use short_message.Qos.{QosSendDaemon, send_to, send_one, send_all, round, start, sleep}

module _ (env : Env) where
  send_to-Keeps : (m : MessageItem) (sates : List SateParam) → Keeps (send_to env m sates)
  unfolding send_to
  send_to-Keeps m [] = Keeps-pure tt
  send_to-Keeps m (s ∷ sates) = search (connection_rules, send_message-Keeps) depth 8

  send_one-Keeps : (m : MessageItem) → Keeps (send_one env m)
  unfolding send_one
  send_one-Keeps m = search (connection_rules, send_to-Keeps) depth 8

  send_all-Keeps : (messages : List MessageItem) → Keeps (send_all env messages)
  unfolding send_all
  send_all-Keeps [] = Keeps-pure tt
  send_all-Keeps (m ∷ messages) =
      let rest = send_all-Keeps messages in search (connection_rules, send_one-Keeps) depth 8

  sleep-Keeps : (interval : ℤ) → Keeps (sleep env interval)
  unfolding sleep
  sleep-Keeps interval = record { at = λ w. refl }

  round-Keeps : (d : QosSendDaemon) → Keeps (round env d)
  unfolding round
  round-Keeps d = search (connection_rules, send_all-Keeps) depth 16

  -- The whole run of the QoS daemon, when it is told to stop, holds as many database connections as
  -- when it began, however many rounds it made and whatever it sent.
  pub start-Keeps : (d : QosSendDaemon) (events : List Bool) → Keeps (start env d events)
  unfolding start
  start-Keeps d [] = Keeps-lift _
  start-Keeps d (stopped ∷ events) =
      let rest = start-Keeps d events in
      Keeps-if (d.stop || stopped) _ _ (Keeps-pure tt)
        (search (connection_rules, round-Keeps, sleep-Keeps) depth 8)
