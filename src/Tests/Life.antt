-- ===== src/Tests/Life.antt =====
-- The server's life with a configuration that is complete, and with one that has no beam table.
use short_message.Prelude.{◌≡◌, refl, Bool, true, false, none, some, [], ◌∷◌, Bytes}
use short_message.Prelude.Int.{ℤ, pos}
use short_message.Memory.{text}
use short_message.Machine.{Result, ok, fault, no_object, thrown}
use short_message.Database.Setup
use short_message.Send.{init_entry, find_address, insert_address}
use short_message.Send
use short_message.Qos
use short_message.Controller.{
  Config, Controller, init, run, make_server, serve, stop, destroy, main,
}
use short_message.Controller.Life.{main_lem}

abbrev pub starts : Bytes → ℤ → Result Bool
starts url n = ok true

abbrev pub makes : ℤ → ℤ → ℤ → ℤ → Bool
makes port w r n = true

abbrev pub listens : ℤ → Bool
listens port = true

-- Another program has the port.
abbrev taken_port : ℤ → Bool
taken_port port = false

abbrev pub complete : Config
complete = record {
  database = some (record {
    host = some (text "localhost");
    user = some (text "im");
    password = some (text "pw");
    db = some (text "im");
    max_size = some (pos 8);
  });
  send_helper =
      some (
        record { beamid = some (pos 1); port = some (pos 9000); ip = some (text "10.0.0.1") } ∷ []);
  qos = some (record {
    max_retry_count = some (pos 5);
    check_interval = some (pos 10);
    msg_interval = some (pos 30);
  });
  thrift_server = some (record {
    port = some (pos 9100);
    write_timeout = some (pos 3);
    read_timeout = some (pos 3);
    thread_cnt = some (pos 4);
  });
}

abbrev no_beams : Config
no_beams = record complete { send_helper = none }

abbrev pub pool_url : Bytes
pool_url = text "mysql://localhost/im?user=im&password=pw"

complete_runs : main starts makes listens complete ≡ ok (pos 0)
unfolding main init Setup.init Setup.print_url Send.init init_entry insert_address find_address
    Qos.init run make_server serve stop destroy Setup.destroy Qos.stop
complete_runs = refl

no_beams_fails : main starts makes listens no_beams ≡ fault no_object
unfolding main init Setup.init Setup.print_url stop destroy Setup.destroy
no_beams_fails = refl

-- The controller after the initialisation.
abbrev pub set_up : Controller
set_up = record {
  pool = some (pool_url, pos 8);
  schedule_address = (pos 1, record { ip = text "10.0.0.1"; port = pos 9000 }) ∷ [];
  qos_send_daemon = record {
    stop = false;
    max_retry_count = pos 5;
    check_interval = pos 10;
    msg_interval = pos 30;
  };
  port = pos 9100;
  write_timeout = pos 3;
  read_timeout = pos 3;
  thread_cnt = pos 4;
  server = false;
  serving = false;
  stop = false;
}

main_lem_example : main starts makes taken_port complete ≡ fault thrown
unfolding init Setup.init Setup.print_url Send.init init_entry insert_address find_address Qos.init
main_lem_example = main_lem starts makes taken_port complete true set_up refl
