-- ===== src/Protocol/Signal.antt =====
-- enum SignalType of src/logic/protocol.h
use short_message.Prelude.{ℕ}

abbrev pub login : ℕ
login = 0x00

abbrev pub logout : ℕ
logout = 0x02

abbrev pub mobile_manager_request : ℕ
mobile_manager_request = 0x03

abbrev pub simple_message : ℕ
simple_message = 0x40

abbrev pub forward_noack_message : ℕ
forward_noack_message = 0x50

abbrev pub backward_noack_message : ℕ
backward_noack_message = 0x51

abbrev pub complete_message : ℕ
complete_message = 0x60

abbrev pub inquire_message_request : ℕ
inquire_message_request = 0x70

abbrev pub receipte : ℕ
receipte = 0x80
