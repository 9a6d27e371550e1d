-- ===== src/Tests/Sockets.antt =====
-- A system with one descriptor, whose state is the descriptor's flags.
use short_message.Prelude.{ℕ, ◌≡◌, refl, true, ltb, if◌then◌else◌, arith, ◌^◌, [], some}
use short_message.Prelude.Int.{pos, negsuc}
use short_message.Socket.{Os, CommonSocket, new_socket, no_addr, set_blocking}
use short_message.Socket.Udp.{waited, arrived}
use short_message.Socket.Flags.{IsFcntl, FlagStored, set_blocking_lem}

-- The flags fit an `int`; those that do not are read as an error.
abbrev system : Os
system = record {
  State = ℕ;
  inet_addr = λ ip. 0;
  socket = λ st. (pos 3, st);
  setsockopt = λ fd option value st. (pos 0, st);
  bind = λ fd a st. (pos 0, st);
  connect = λ fd a st. (pos 0, st);
  get_flags = λ fd st. (if ltb st (2 ^ 31) then pos st else negsuc 0, st);
  set_flags = λ fd new st. (pos 0, new);
  close = λ fd st. st;
  send = λ fd buf len st. (len, st);
  recv = λ fd len st. (record { recv_bytes = pos 0; bytes = []; from = no_addr }, st);
  sendto = λ fd buf len a st. (len, st);
  recvfrom = λ fd len st. (record { recv_bytes = pos 0; bytes = []; from = no_addr }, st);
  select = λ fd s us st. (record { ret = pos 0; ready = true; tv_sec = 0; tv_usec = 0 }, st);
}

system-IsFcntl : IsFcntl system
system-IsFcntl = record {
  flags = λ st fd. st;
  get_lem = λ fd st st' r x. ground arith;
  read_lem = λ fd st st' n x. ground arith;
  set_lem = λ fd block new n st st' x b. ground arith;
  failed_lem = λ fd new n st st' x. ground arith;
}

abbrev socket : CommonSocket
socket = new_socket (pos 3) (pos 0)

set_blocking_lem_example :
    let (done, s', st') = set_blocking system true socket 0x802 in
    (s' ≡ socket) × FlagStored system system-IsFcntl true socket 0x802 done st'
unfolding system-IsFcntl
set_blocking_lem_example = set_blocking_lem system system-IsFcntl true socket 0x802

-- A message that arrives when 250 of 1000 milliseconds are left.
waited_part :
    waited 1000 (record { ret = pos 1; ready = true; tv_sec = 0; tv_usec = 250999 })
    ≡ (arrived, some (pos 750))
unfolding waited
waited_part = refl
