-- ===== src/Socket/Udp.antt =====
-- src/commons/udp_socket.cpp: a UdpSocket is a CommonSocket with no member of its own.
use short_message.Prelude.{
  ℕ, ◌+◌, ◌-◌, ◌*◌, ◌/◌, ◌%◌, Bool, true, false, leb, if◌then◌else◌, Option, none, some, Bytes,
}
use short_message.Prelude.Int.{ℤ, pos, negsuc, int_eq, int_lt}
use short_message.Memory.{htonl, htons}
use short_message.Socket.{Os, SockAddr, Selected, CommonSocket, Call, socket_addr, close_socket}

-- a - b of two times in an `int`
abbrev int_minus : ℕ → ℕ → ℤ
int_minus a b = if leb b a then pos (a - b) else negsuc (b - a - 1)

-- What `RecvFrom` returns, and what it writes to `*from_ip` and `*from_port`, in host order; `none`
-- is a pointer that is NULL.
pub record Datagram : Type 0 where
  pub recv_bytes : ℤ
  pub bytes : Bytes
  pub from_ip : Option ℕ
  pub from_port : Option ℕ

abbrev pub only_if {ℓ} : {A : Type ℓ} → Bool → A → Option A
only_if wanted a = if wanted then some a else none

-- MSG_IDLE and MSG_ARRIVAL
pub data Arrival : Type 0 where
  idle arrived : Arrival

-- What `WaitMsg` makes of the result of `select`; `none` leaves `*elapsed_time` as it was.
unfoldable pub waited : ℕ → Selected → Arrival × Option ℤ
waited time_out r =
    if int_eq r.ret (negsuc 0)
    then (idle, none)
    else if int_eq r.ret (pos 0)
    then (idle, some (pos time_out))
    else if r.ready
    then (arrived, some (int_minus time_out (r.tv_sec * 1000 + r.tv_usec / 1000)))
    else (idle, none)

module _ (os : Os) where
  open os use {State}

  unfoldable pub create : CommonSocket → State → Call State Bool
  create s st =
      let (fd, st₁) = os.socket st in
      let s' = record s { socket_fd = fd } in
      if int_lt fd (pos 0) then (false, s', st₁) else (true, s', st₁)

  -- `~UdpSocket`, and then `~CommonSocket`.
  unfoldable pub destroy : CommonSocket → State → State
  destroy s st =
      let st₁ = (if int_lt (pos 0) s.socket_fd then os.close s.socket_fd st else st) in
      close_socket os s st₁

  unfoldable pub send_to_ip : Bytes → ℤ → Bytes → ℕ → CommonSocket → State → Call State ℤ
  send_to_ip buf len dst_ip dst_port s st =
      let (result, st₁) = os.sendto s.socket_fd buf len (socket_addr os dst_ip dst_port) st in
      (result, s, st₁)

  unfoldable pub send_to_addr : Bytes → ℤ → SockAddr → CommonSocket → State → Call State ℤ
  send_to_addr buf len sock_addr s st =
      let (result, st₁) = os.sendto s.socket_fd buf len sock_addr st in (result, s, st₁)

  -- The address is read also where the call has failed: it is then what `from` of the result holds.
  unfoldable pub recv_from : ℤ → Bool → Bool → CommonSocket → State → Call State Datagram
  recv_from buf_len wants_ip wants_port s st =
      let (received, st₁) = os.recvfrom s.socket_fd buf_len st in
      (
        record {
          recv_bytes = received.recv_bytes;
          bytes = received.bytes;
          from_ip = only_if wants_ip (htonl received.from.addr);
          from_port = only_if wants_port (htons received.from.port);
        },
        s,
        st₁,
      )

  -- `WaitMsg`, for a time-out that is not negative, in milliseconds.
  unfoldable pub wait_msg : ℕ → CommonSocket → State → Call State (Arrival × Option ℤ)
  wait_msg time_out s st =
      let (r, st₁) = os.select s.socket_fd (time_out / 1000) (time_out % 1000 * 1000) st in
      (waited time_out r, s, st₁)
