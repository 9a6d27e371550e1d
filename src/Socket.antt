-- ===== src/Socket.antt =====
-- The sockets of src/commons/comm_socket.cpp and src/commons/udp_socket.cpp as they are built with
-- LINUX defined, and `BuildSockAddr` of src/commons/utils.cpp. What is printed is left out.
pub mod Udp
pub mod Flags
use short_message.Prelude.{
  ℕ, ◌+◌, ◌-◌, ◌*◌, ◌/◌, ◌%◌, ◌^◌, Bool, true, false, not, ◌==◌, leb, if◌then◌else◌, Option, none,
  some, List, [], ◌∷◌, Bytes,
}
use short_message.Prelude.Int.{ℤ, pos, negsuc, int_eq, int_lt, u32}
use short_message.Memory.{htonl, htons}
use Prim.Native.Nat.{bit_and, bit_or}

-- struct sockaddr_in, its port and address in network order
pub record SockAddr : Type 0 where
  pub family : ℕ
  pub port : ℕ
  pub addr : ℕ

pub data SocketOption : Type 0 where
  reuse_addr send_buf_size recv_buf_size : SocketOption

-- What `select` leaves: its result, whether FD_ISSET finds the descriptor, and the time that is left
-- (seconds and microseconds).
pub record Selected : Type 0 where
  pub ret : ℤ
  pub ready : Bool
  pub tv_sec : ℕ
  pub tv_usec : ℕ

-- What a call that receives leaves: its result, the bytes, and the address of the peer.
pub record Received : Type 0 where
  pub recv_bytes : ℤ
  pub bytes : Bytes
  pub from : SockAddr

-- The system calls of Linux, which are not part of the repository: a parameter. Each gives its result
-- and the state that it leaves.
pub record Os : Type 1 where
  pub State : Type 0
  -- the address that a text stands for, in network order
  pub inet_addr : Bytes → ℕ
  -- socket(AF_INET, SOCK_DGRAM, 0)
  pub socket : State → ℤ × State
  pub setsockopt : ℤ → SocketOption → ℤ → State → ℤ × State
  pub bind : ℤ → SockAddr → State → ℤ × State
  pub connect : ℤ → SockAddr → State → ℤ × State
  -- fcntl(fd, F_GETFL) and fcntl(fd, F_SETFL, flags)
  pub get_flags : ℤ → State → ℤ × State
  pub set_flags : ℤ → ℕ → State → ℤ × State
  pub close : ℤ → State → State
  pub send : ℤ → Bytes → ℤ → State → ℤ × State
  pub recv : ℤ → ℤ → State → Received × State
  pub sendto : ℤ → Bytes → ℤ → SockAddr → State → ℤ × State
  pub recvfrom : ℤ → ℤ → State → Received × State
  -- for one descriptor to read from; seconds and microseconds
  pub select : ℤ → ℕ → ℕ → State → Selected × State

abbrev pub af_inet : ℕ
af_inet = 2

abbrev pub no_addr : SockAddr
no_addr = record { family = 0; port = 0; addr = 0 }

-- The members that a CommonSocket has on Linux.
pub record CommonSocket : Type 0 where
  pub socket_fd : ℤ
  pub if_status : ℤ
  pub local_addr : SockAddr
  pub peer_addr : SockAddr

-- The constructor; the descriptor and the status are not initialised, and are arguments here.
abbrev pub new_socket : ℤ → ℤ → CommonSocket
new_socket fd status = record {
  socket_fd = fd;
  if_status = status;
  local_addr = no_addr;
  peer_addr = no_addr;
}

-- O_NONBLOCK of Linux
abbrev pub o_nonblock : ℕ
o_nonblock = 0x800

-- `opts & (~O_NONBLOCK)` or `opts | O_NONBLOCK`, for flags that are not negative
unfoldable pub with_blocking : Bool → ℕ → ℕ
with_blocking block opts =
    if block then bit_and opts (0xffffffff - o_nonblock) else bit_or opts o_nonblock

abbrev pub set_if_status : ℤ → CommonSocket → CommonSocket
set_if_status status s = record s { if_status = status }

-- What a member function leaves of the object and of the system.
abbrev pub Call : Type 0 → Type 0 → Type 0
Call S A = A × CommonSocket × S

module _ (os : Os) where
  open os use {State}

  abbrev pub socket_addr : Bytes → ℕ → SockAddr
  socket_addr ip port = record { family = af_inet; port = htons port; addr = os.inet_addr ip }

  unfoldable pub bind_socket : Bytes → ℕ → CommonSocket → State → Call State Bool
  bind_socket listen_ip listen_port s st =
      let s' = record s { local_addr = socket_addr listen_ip listen_port } in
      let (option, st₁) = os.setsockopt s'.socket_fd reuse_addr (pos 1) st in
      if int_lt option (pos 0)
      then (false, s', st₁)
      else (let (bound, st₂) = os.bind s'.socket_fd s'.local_addr st₁ in
          (int_eq bound (pos 0), s', st₂))

  unfoldable pub set_send_buf_size : ℤ → CommonSocket → State → Call State Bool
  set_send_buf_size size s st =
      let (result, st₁) = os.setsockopt s.socket_fd send_buf_size size st in
      (not (int_lt result (pos 0)), s, st₁)

  unfoldable pub set_recv_buf_size : ℤ → CommonSocket → State → Call State Bool
  set_recv_buf_size size s st =
      let (result, st₁) = os.setsockopt s.socket_fd recv_buf_size size st in
      (not (int_lt result (pos 0)), s, st₁)

  pub store_flags : ℤ → Bool → CommonSocket → State → Call State Bool
  store_flags (negsuc n) block s st = (false, s, st)
  store_flags (pos opts) block s st =
      let (result, st₁) = os.set_flags s.socket_fd (with_blocking block opts) st in
      (not (int_lt result (pos 0)), s, st₁)

  unfoldable pub set_blocking : Bool → CommonSocket → State → Call State Bool
  unfolding store_flags
  set_blocking block s st =
      let (opts, st₁) = os.get_flags s.socket_fd st in store_flags opts block s st₁

  unfoldable pub connect_socket : Bytes → ℕ → CommonSocket → State → Call State Bool
  connect_socket peer_ip peer_port s st =
      let s' = record s { peer_addr = socket_addr peer_ip peer_port } in
      let (result, st₁) = os.connect s'.socket_fd s'.peer_addr st in
      (int_eq result (pos 0), s', st₁)

  unfoldable pub close_socket : CommonSocket → State → State
  close_socket s st = os.close s.socket_fd st

  unfoldable pub send_socket : Bytes → ℤ → CommonSocket → State → Call State ℤ
  send_socket buf len s st = let (result, st₁) = os.send s.socket_fd buf len st in (result, s, st₁)

  unfoldable pub recv_socket : ℤ → CommonSocket → State → Call State Received
  recv_socket buf_len s st =
      let (received, st₁) = os.recv s.socket_fd buf_len st in (received, s, st₁)
