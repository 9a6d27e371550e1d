-- ===== src/Fifo/Contents.antt =====
-- The packets that a queue holds, and what `PushPacket` makes of them.
use short_message.Prelude.{
  ℕ, ◌+◌, ◌%◌, ◌^◌, ◌≤◌, ◌<◌, ◌≡◌, ◌⊎◌, refl, ◌∙◌, true, false, List, [], ◌∷◌, ◌++◌, Bytes, length,
  arith, ltb,
}
use short_message.Memory.{le16}
use short_message.Machine.{ok}
use short_message.Fifo.{FifoQueue, is_full, place, push_packet}
use short_message.Fifo.Windows.{window, put, store-put}
use short_message.Fifo.Segment.{
  Segment, total, put_packet, length-put_packet, body_fits, header_fits,
}
use short_message.Fifo.Packet.{after_push}

-- Where the packets stand: in one run, or in one up to an end, and then from the start of the buffer.
-- The end is where the packet that follows it did not fit, and END_FLAG marks it if there is room.
pub data Layout (q : FifoQueue) (ps : List Bytes) : Type 0 where
  flat : Segment q.buffer q.read_pos ps q.write_pos → Layout q ps
  wrapped :
      (front : List Bytes) (p : Bytes) (back : List Bytes) (end : ℕ)
      → ps ≡ front ++ (p ∷ back)
      → Segment q.buffer q.read_pos front end
      → q.buf_size < end + 2 + length p
      → (q.buf_size < end + 2) ⊎ (window q.buffer end 2 ≡ le16 0)
      → Segment q.buffer 0 (p ∷ back) q.write_pos
      → q.write_pos ≤ q.read_pos
      → Layout q ps

-- The counters are far from their wrap.
pub record Holds (q : FifoQueue) (ps : List Bytes) : Type 0 where
  pub layout : Layout q ps
  pub size : q.buf_size ≡ length q.buffer
  pub small : q.buf_size < 2 ^ 31
  pub reach : q.write_pos ≤ q.buf_size
  pub read_reach : q.read_pos ≤ q.buf_size
  pub counters : q.write_bytes ≡ q.read_bytes + total ps
  pub far : q.write_bytes < 2 ^ 63

-- A packet of so many bytes does not reach what has not been read.
abbrev pub Fits : (q : FifoQueue) (ps : List Bytes) → ℕ → Layout q ps → Type 0
Fits q ps n (flat _) = (q.write_pos + n + 2 ≤ q.buf_size) ⊎ (n + 2 ≤ q.read_pos)
Fits q ps n (wrapped _ _ _ _ _ _ _ _ _ _) = q.write_pos + n + 2 ≤ q.read_pos

pushed_lem :
    (q : FifoQueue) (packet buffer : Bytes) (pos : ℕ)
    → length packet < 65535
    → is_full (length packet) q ≡ false
    → place (length packet) q ≡ ok (pos, buffer)
    → pos + 2 + length packet ≤ length buffer
    → push_packet packet q ≡ ok (true, after_push q packet pos (put_packet buffer pos packet))
unfolding push_packet
pushed_lem q packet buffer pos lt free e fits =
    let small : (ltb (length packet) 65535 ≡ true) = ground arith in
    rw (
      small,
      free,
      e,
      store-put buffer (le16 (length packet)) pos (header_fits buffer packet pos fits),
      store-put (put buffer pos (le16 (length packet))) packet (pos + 2)
          (body_fits buffer packet pos fits),
    )

-- What a push that puts the packet at a position leaves.
pub record Pushed (q : FifoQueue) (packet : Bytes) (ps : List Bytes) : Type 0 where
  pub full : FifoQueue
  pub pushed : push_packet packet q ≡ ok (true, full)
  pub layout : Layout full (ps ++ (packet ∷ []))
  pub same_read : full.read_pos ≡ q.read_pos
  pub same_size : full.buf_size ≡ q.buf_size
  pub same_length : length full.buffer ≡ length q.buffer
  pub same_counter : full.read_bytes ≡ q.read_bytes
  pub counter : full.write_bytes ≡ (q.write_bytes + length packet + 2) % 2 ^ 64
  pub reach : full.write_pos ≤ length q.buffer
  pub next :
      (full.write_pos ≡ q.write_pos + 2 + length packet) ⊎ (full.write_pos ≡ 2 + length packet)

pub Pushed-at :
    (q : FifoQueue) (packet : Bytes) (ps : List Bytes) (buffer : Bytes) (pos : ℕ)
    → length packet < 65535
    → is_full (length packet) q ≡ false
    → place (length packet) q ≡ ok (pos, buffer)
    → pos + 2 + length packet ≤ length buffer
    → length buffer ≡ length q.buffer
    → (pos ≡ q.write_pos) ⊎ (pos ≡ 0)
    → Layout (after_push q packet pos (put_packet buffer pos packet)) (ps ++ (packet ∷ []))
    → Pushed q packet ps
Pushed-at q packet ps buffer pos lt free e fits same at layout = record {
  full = after_push q packet pos (put_packet buffer pos packet);
  pushed = pushed_lem q packet buffer pos lt free e fits;
  layout = layout;
  same_read = refl;
  same_size = refl;
  same_length = length-put_packet buffer packet pos fits ∙ same;
  same_counter = refl;
  counter = refl;
  reach = omega arith;
  next = ground arith;
}
