-- ===== src/Fifo.antt =====
-- src/commons/fifo_queue.cpp, with the class of fifo_queue.h: packets in a ring of bytes. A position is
-- an offset from `buffer_`. The lock is left out: a call runs to its end before the next one.
pub mod Splits
pub mod Windows
pub mod Segment
pub mod Packet
pub mod Contents
pub mod Push
pub mod Pop
pub mod Uniform
pub mod Queue
pub mod Refine
pub mod Empty
pub mod Overlap
pub mod Received
use short_message.Prelude.{
  ℕ, ◌+◌, ◌*◌, ◌-◌, ◌%◌, ◌^◌, Bool, true, false, Option, none, some, Bytes, length, take, drop,
  replicate, ◌++◌, ltb, ◌==◌, not, if◌then◌else◌,
}
use short_message.Prelude.Int.{ℤ, negsuc, int_lt, u16, to_unsigned}
use short_message.Memory.{le16, read16}
use short_message.Machine.{Result, ok, fault, out_of_bounds, aborted, in_bounds, ◌>>=◌}

pub record FifoQueue : Type 0 where
  pub buffer : Bytes
  pub read_pos : ℕ
  pub write_pos : ℕ
  pub read_bytes : ℕ
  pub write_bytes : ℕ
  pub buf_size : ℕ

-- `Init`; what new memory holds is an argument.
abbrev pub init : Bytes → FifoQueue
init buffer = record {
  buffer = buffer;
  read_pos = 0;
  write_pos = 0;
  read_bytes = 0;
  write_bytes = 0;
  buf_size = length buffer;
}

abbrev pub reset : FifoQueue → FifoQueue
reset q = record q { read_pos = 0; write_pos = 0; read_bytes = 0; write_bytes = 0 }

-- A copy of bytes to a position, and from one.
unfoldable pub store : Bytes → ℕ → Bytes → Result Bytes
store buffer pos bs =
    if ltb (length buffer) (pos + length bs)
    then fault out_of_bounds
    else ok (take pos buffer ++ bs ++ drop (pos + length bs) buffer)

unfoldable pub load : Bytes → ℕ → ℕ → Result Bytes
load buffer pos n =
    if ltb (length buffer) (pos + n) then fault out_of_bounds else ok (take n (drop pos buffer))

-- *(uint16_t*)pos
unfoldable pub load16 : Bytes → ℕ → Result ℕ
load16 buffer pos = do (v, rest) ← in_bounds (read16 (drop pos buffer)); ok v

-- `write_bytes_ + 2*len + 2*(PACK_LEN_SIZE - 1) > read_bytes_ + buf_size_`, on uint64_t
abbrev pub is_full : ℕ → FifoQueue → Bool
is_full len q = ltb ((q.read_bytes + q.buf_size) % 2 ^ 64) ((q.write_bytes + 2 * len + 2) % 2 ^ 64)

-- Where the packet goes, and the buffer with END_FLAG where the rest is too short for it.
unfoldable pub place : ℕ → FifoQueue → Result (ℕ × Bytes)
place len q =
    if ltb q.buf_size (q.write_pos + 2)
    then ok (0, q.buffer)
    else if ltb q.buf_size (q.write_pos + len + 2)
    then (do b ← store q.buffer q.write_pos (le16 0); ok (0, b))
    else ok (q.write_pos, q.buffer)

unfoldable pub push_packet : Bytes → FifoQueue → Result (Bool × FifoQueue)
push_packet packet q =
    if not (ltb (length packet) 65535)
    then fault aborted
    else if is_full (length packet) q
    then ok (false, q)
    else (do
      (pos, b) ← place (length packet) q
      b₁ ← store b pos (le16 (length packet))
      b₂ ← store b₁ (pos + 2) packet
      ok (
        true,
        record q {
          buffer = b₂;
          write_pos = pos + 2 + length packet;
          write_bytes = (q.write_bytes + length packet + 2) % 2 ^ 64;
        },
      ))

-- The position of the next packet's length, and the length.
unfoldable pub next_packet : FifoQueue → Result (ℕ × ℕ)
next_packet q = do
  let start = (if ltb q.buf_size (q.read_pos + 2) then 0 else q.read_pos)
  len ← load16 q.buffer start
  if len == 0 then (do len ← load16 q.buffer 0; ok (0, len)) else ok (start, len)

-- `PopPacket`; `none` waits for a packet.
unfoldable pub pop_packet : FifoQueue → Result (Option (Bytes × FifoQueue))
pop_packet q = if not (ltb q.read_bytes q.write_bytes) then ok none else (do
  (pos, len) ← next_packet q
  packet ← load q.buffer (pos + 2) len
  ok (
      some (
        packet,
        record q { read_pos = pos + 2 + len; read_bytes = (q.read_bytes + len + 2) % 2 ^ 64 },
      )))

unfoldable pub peek_next_pack_len : FifoQueue → Result (ℕ × FifoQueue)
peek_next_pack_len q =
    if not (ltb q.read_bytes q.write_bytes)
    then ok (0, q)
    else (do (pos, len) ← next_packet q; ok (len, record q { read_pos = pos }))

-- `Update`: the position moves on by the packet, and goes to the start where the rest is too short.
unfoldable pub move_on : ℕ → ℕ → FifoQueue → Bytes → Result (ℕ × Bytes)
move_on recv_pos len q buffer =
    if ltb q.buf_size (recv_pos + len + 2)
    then ok (2, buffer)
    else if ltb q.buf_size (recv_pos + len + 2 + len)
    then (do b ← store buffer (recv_pos + len) (le16 0); ok (2, b))
    else ok (recv_pos + len + 2, buffer)

-- For a negative length, -(n + 1), it moves by 1 - n; the second test does not hold then, since the
-- position is in the buffer. A position before the buffer is none.
unfoldable pub move_back : ℕ → ℕ → FifoQueue → Bytes → Result (ℕ × Bytes)
move_back recv_pos n q buffer =
    if ltb (recv_pos + 1) n
    then fault out_of_bounds
    else if ltb q.buf_size (recv_pos + 1 - n)
    then ok (2, buffer)
    else ok (recv_pos + 1 - n, buffer)

-- `write_bytes_ + 2*len + 2*(PACK_LEN_SIZE - 1) > read_bytes_ + buf_size_` for an `int len`
abbrev pub has_no_room : ℤ → FifoQueue → Bool
has_no_room (ℤ.pos len) q = is_full len q
has_no_room (negsuc n) q =
    ltb ((q.read_bytes + q.buf_size) % 2 ^ 64)
      ((q.write_bytes + to_unsigned (2 ^ 64) (negsuc (2 * n + 1)) + 2) % 2 ^ 64)

abbrev pub moved : ℕ → ℤ → FifoQueue → Bytes → Result (ℕ × Bytes)
moved recv_pos (ℤ.pos len) q buffer = move_on recv_pos len q buffer
moved recv_pos (negsuc n) q buffer = move_back recv_pos n q buffer

-- The length is written where `recv_pos` says, before the test of the room.
unfoldable pub update : ℕ → ℤ → FifoQueue → Result (Bool × ℕ × FifoQueue)
update recv_pos len q =
    if not (int_lt len (ℤ.pos 65535))
    then fault aborted
    else if ltb recv_pos 2
    then fault out_of_bounds
    else (do
      b ← store q.buffer (recv_pos - 2) (le16 (u16 len))
      if has_no_room len q then ok (false, recv_pos, record q { buffer = b }) else (do
        (pos, b₁) ← moved recv_pos len q b
        ok (
          true,
          pos,
          record q {
            buffer = b₁;
            write_bytes = (q.write_bytes + to_unsigned (2 ^ 64) len + 2) % 2 ^ 64;
          },
        )))
