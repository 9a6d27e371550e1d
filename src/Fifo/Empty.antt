-- ===== src/Fifo/Empty.antt =====
-- A packet goes through an empty queue, wherever its positions stand.
use short_message.Prelude.{
  ℕ, ◌+◌, ◌*◌, ◌%◌, ◌^◌, ◌≤◌, ◌<◌, ◌≡◌, refl, ap, inl, inr, true, false, some, Bytes, ◌++◌, length,
  length-append, arith, ltb, ◌==◌, Bool-cases,
}
use short_message.Memory.{le16}
use short_message.Machine.{ok}
use short_message.Fifo.{FifoQueue, is_full, place, push_packet, next_packet, pop_packet}
use short_message.Fifo.Splits.{load16_lem}
use short_message.Fifo.Packet.{Room, room, after_push, push_lem, pop_lem, flag_end, load16_behind}

-- A queue without packets, whose counters are far from their wrap.
pub record IsEmpty (q : FifoQueue) : Type 0 where
  pub positions : q.read_pos ≡ q.write_pos
  pub counters : q.read_bytes ≡ q.write_bytes
  pub far : q.write_bytes < 2 ^ 63
  pub size : q.buf_size ≡ length q.buffer
  pub bounds : q.write_pos ≤ q.buf_size
  pub small : q.buf_size < 2 ^ 31

-- A packet goes in and comes out, and the queue is empty again.
pub record Passes (q : FifoQueue) (packet : Bytes) : Type 0 where
  pub full : FifoQueue
  pub rest : FifoQueue
  pub pushed : push_packet packet q ≡ ok (true, full)
  pub popped : pop_packet full ≡ ok (some (packet, rest))
  pub positions : rest.read_pos ≡ rest.write_pos
  pub counters : rest.read_bytes ≡ rest.write_bytes
  pub size : rest.buf_size ≡ q.buf_size
  pub kept : length rest.buffer ≡ length q.buffer
  pub bounds : rest.write_pos ≤ rest.buf_size

Passes-at :
    (q : FifoQueue) (packet buffer : Bytes) (pos : ℕ)
    → IsEmpty q
    → length packet < 65535
    → is_full (length packet) q ≡ false
    → length buffer ≡ length q.buffer
    → pos + 2 + length packet ≤ length buffer
    → place (length packet) q ≡ ok (pos, buffer)
    → ((r : Room buffer pos (length packet))
        → next_packet (after_push q packet pos (r.a ++ (le16 (length packet) ++ (packet ++ r.b))))
          ≡ ok (pos, length packet))
    → Passes q packet
Passes-at q packet buffer pos empty lt free same fits e next =
    let r = room buffer pos (length packet) fits in
    let c = r.a ++ (le16 (length packet) ++ (packet ++ r.b)) in
    let full = after_push q packet pos c in
    record {
      full = full;
      rest = record full {
        read_pos = pos + 2 + length packet;
        read_bytes = (q.read_bytes + length packet + 2) % 2 ^ 64;
      };
      pushed = push_lem q packet buffer pos r lt free e;
      popped =
          pop_lem full packet r.a r.b pos refl r.size (omega (arith, empty.counters, empty.far))
            (next r);
      positions = refl;
      counters = rw (empty.counters) refl;
      size = refl;
      kept = omega (
        arith,
        same,
        ap length r.parts,
        r.size₀,
        r.size₁,
        length-append r.a (le16 (length packet) ++ (packet ++ r.b)),
        length-append packet r.b,
        length-append r.a (r.m₀ ++ (r.m₁ ++ r.b)),
        length-append r.m₀ (r.m₁ ++ r.b),
        length-append r.m₁ r.b,
      );
      bounds = omega (arith, empty.size, same, fits);
    }

pub has_room :
    (q : FifoQueue) (len : ℕ)
    → IsEmpty q
    → len < 65535
    → 2 * len + 2 ≤ q.buf_size
    → is_full len q ≡ false
has_room q len empty lt le = ground (arith, empty.counters, empty.far, empty.small)

-- The packet goes to the start where the rest cannot take its length.
Passes-start :
    (q : FifoQueue) (packet : Bytes)
    → IsEmpty q
    → 0 < length packet
    → length packet < 65535
    → 2 * length packet + 3 ≤ q.buf_size
    → q.buf_size < q.write_pos + 2
    → Passes q packet
unfolding place next_packet
Passes-start q packet empty pos lt le over =
    let w : (ltb q.buf_size (q.write_pos + 2) ≡ true) = ground arith in
    let some_bytes : ((length packet == 0) ≡ false) = ground arith in
    Passes-at q packet q.buffer 0 empty lt (has_room q (length packet) empty lt (omega arith)) refl
      (omega (arith, empty.size)) (rw w)
      (λ r. rw (
        empty.positions,
        w,
        load16_lem r.a (packet ++ r.b) 0 (length packet) r.size (omega arith),
        some_bytes,
      ))

-- The packet stays where it fits.
Passes-here :
    (q : FifoQueue) (packet : Bytes)
    → IsEmpty q
    → 0 < length packet
    → length packet < 65535
    → 2 * length packet + 3 ≤ q.buf_size
    → q.write_pos + length packet + 2 ≤ q.buf_size
    → Passes q packet
unfolding place next_packet
Passes-here q packet empty pos lt le fits =
    let w : (ltb q.buf_size (q.write_pos + 2) ≡ false) = ground arith in
    let w' : (ltb q.buf_size (q.write_pos + length packet + 2) ≡ false) = ground arith in
    let some_bytes : ((length packet == 0) ≡ false) = ground arith in
    Passes-at q packet q.buffer q.write_pos empty lt
      (has_room q (length packet) empty lt (omega arith)) refl (omega (arith, empty.size))
      (rw (w, w'))
      (λ r. rw (
        empty.positions,
        w,
        load16_lem r.a (packet ++ r.b) q.write_pos (length packet) r.size (omega arith),
        some_bytes,
      ))

-- END_FLAG marks the rest, and the packet goes to the start.
Passes-wrapped :
    (q : FifoQueue) (packet : Bytes)
    → IsEmpty q
    → 0 < length packet
    → length packet < 65535
    → 2 * length packet + 3 ≤ q.buf_size
    → q.write_pos + 2 ≤ q.buf_size
    → q.buf_size < q.write_pos + length packet + 2
    → Passes q packet
unfolding place next_packet
Passes-wrapped q packet empty pos lt le fits over =
    let w : (ltb q.buf_size (q.write_pos + 2) ≡ false) = ground arith in
    let w' : (ltb q.buf_size (q.write_pos + length packet + 2) ≡ true) = ground arith in
    let some_bytes : ((length packet == 0) ≡ false) = ground arith in
    let f = flag_end q.buffer q.write_pos (omega (arith, empty.size)) in
    Passes-at q packet f.flagged 0 empty lt (has_room q (length packet) empty lt (omega arith))
      f.size (omega (arith, empty.size, f.size)) (rw (w, w', f.written))
      (λ r. rw (
        empty.positions,
        w,
        load16_behind f.flagged packet q.write_pos r (omega arith),
        f.flag,
        load16_lem r.a (packet ++ r.b) 0 (length packet) r.size (omega arith),
      ))

-- A packet of 1 … 65534 bytes goes through an empty queue unchanged, and leaves it empty, wherever
-- the positions stand, if the buffer has at least twice its bytes and three more.
pub push_packet-Passes :
    (q : FifoQueue) (packet : Bytes)
    → IsEmpty q
    → 0 < length packet
    → length packet < 65535
    → 2 * length packet + 3 ≤ q.buf_size
    → Passes q packet
push_packet-Passes q packet empty pos lt le = elim (Bool-cases (ltb q.buf_size (q.write_pos + 2))) [
  | inl over ↦ Passes-start q packet empty pos lt le (ground arith)
  | inr fits ↦ elim (Bool-cases (ltb q.buf_size (q.write_pos + length packet + 2))) [
    | inl over ↦ Passes-wrapped q packet empty pos lt le (ground arith) (ground arith)
    | inr room ↦ Passes-here q packet empty pos lt le (ground arith)
  ]
]
