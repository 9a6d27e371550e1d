-- ===== src/Tests/Threads.antt =====
-- The threads of `main`, from the initialisation to a signal.
use mathlib.Core.List.{mem-cons_self}
use short_message.Prelude.{◌≡◌, refl, true, false}
use short_message.Database.Setup
use short_message.Send.{init_entry, find_address, insert_address}
use short_message.Send
use short_message.Qos
use short_message.System.{IsCached}
use short_message.Controller.{init, make_server, serve}
use short_message.Controller.Threads.{
  AllAsked, Process, waits, begins, made, serves, tests, Reach, here, next, by_run, by_client,
  by_signal,
}
use short_message.Controller.Threads.Safety.{Begun, IsSafe, Reach-IsSafe}
use short_message.Controller.Threads.Keeping.{Reach-IsCached}
use short_message.Handler.Kept.{acknowledges}
use short_message.Handler.Stored.{Begins}
use short_message.Protocol.{control_head, user_ack_response}
use short_message.Controller.Threads.Ending.{Ends, Reach-Ends}
use short_message.Controller.Threads.Hanging.{Hangs, Reach-Hangs}
use short_message.Tests.Tables.{Tables, memory-IsMySql, office}
use short_message.Tests.Life.{starts, makes, listens, complete, set_up}
use short_message.Tests.Keeping.{cached, receipt_for, world, stack, after_receipt, handled}

abbrev first : Process Tables
first = record {
  controller = set_up;
  stopped = false;
  main = waits;
  run = begins;
  qos = tests;
  world = world;
}

-- The server is made, it handles the receipt, and a signal comes.
abbrev last : Process Tables
last = record {
  controller = record set_up { server = true; serving = true };
  stopped = true;
  main = waits;
  run = serves;
  qos = tests;
  world = after_receipt;
}

begun : (t : Process Tables) → Begun starts makes listens office stack complete first t
unfolding init Setup.init Setup.print_url Send.init init_entry insert_address find_address Qos.init
begun t = record { set_up = refl; main_waits = refl; run_begins = refl; qos_tests = refl }

reached_last : Reach makes listens office stack first last
unfolding make_server serve
reached_last =
    next
      (next (next (next here (by_run _ refl)) (by_run _ refl))
        (by_client (receipt_for 4) _ refl handled))
      by_signal

Reach-IsSafe_example : IsSafe last
Reach-IsSafe_example =
    Reach-IsSafe starts makes listens office stack complete first last (begun last) reached_last

-- The receipt is for frame 4, and the message of frame 3 is cached.
asked :
    AllAsked makes listens office stack
      (λ request. acknowledges request cached ≡ false)
      first
      last
      reached_last
unfolding reached_last control_head user_ack_response
asked = ((((tt, tt), tt), refl), tt)

Reach-IsCached_example :
    IsCached office memory-IsMySql stack set_up.qos_send_daemon cached after_receipt
    × Begins office memory-IsMySql world.db.store after_receipt.db
Reach-IsCached_example =
    Reach-IsCached makes listens office memory-IsMySql stack starts complete cached first last
      (begun last) reached_last asked mem-cons_self

Reach-Ends_example : Ends makes listens office stack last
Reach-Ends_example =
    Reach-Ends starts makes listens office stack complete first last (begun last) reached_last refl
      refl refl

-- The signal comes when the server is made and does not listen yet.
abbrev early : Process Tables
early = record first { controller = record set_up { server = true }; stopped = true; run = made }

reached_early : Reach makes listens office stack first early
unfolding make_server
reached_early = next (next here (by_run _ refl)) by_signal

Reach-Hangs_example : Hangs makes listens office stack early
Reach-Hangs_example =
    Reach-Hangs starts makes listens office stack complete first early (begun early) reached_early
      refl refl refl refl
