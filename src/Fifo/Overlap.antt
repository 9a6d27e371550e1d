-- ===== src/Fifo/Overlap.antt =====
-- A packet that `PushPacket` takes although it does not fit.
use short_message.Prelude.{
  ℕ, ◌+◌, ◌*◌, ◌≡◌, ◌<◌, ◌≤◌, ◌%◌, ◌/◌, sym, ap, ◌∙◌, true, false, ◌++◌, ◌∷◌, [], Bytes, length,
  length-append, drop, arith, append_assoc, ltb, ◌==◌,
}
use short_message.Memory.{le16}
use short_message.Machine.{ok}
use short_message.Fifo.{
  FifoQueue, place, push_packet, store, next_packet, peek_next_pack_len, load16,
}
use short_message.Fifo.Splits.{drop_at, load16_lem}
use short_message.Fifo.Packet.{Room, room, after_push, push_lem, Flagged, flag_end}
use short_message.Fifo.Empty.{IsEmpty, has_room}

-- What lies behind the packet at the start: the second byte of END_FLAG, and what follows it.
behind_lem :
    (buffer packet : Bytes) (f : Flagged buffer (length packet + 1))
    (r : Room f.flagged 0 (length packet))
    → r.b ≡ 0 ∷ f.after
behind_lem buffer packet f r =
    let x = r.a ++ (r.m₀ ++ r.m₁) in
    let n = 2 + length packet in
    let one : (f.flagged ≡ x ++ r.b) =
      r.parts
      ∙ sym
          (append_assoc r.a (r.m₀ ++ r.m₁) r.b ∙ ap (λ c. r.a ++ c) (append_assoc r.m₀ r.m₁ r.b)) in
    let two : (f.flagged ≡ (f.before ++ 0 ∷ []) ++ (0 ∷ f.after)) =
      f.shape ∙ sym (append_assoc f.before (0 ∷ []) (0 ∷ f.after)) in
    sym (
      drop_at x r.b n (
        omega (
          arith,
          r.size,
          r.size₀,
          r.size₁,
          length-append r.a (r.m₀ ++ r.m₁),
          length-append r.m₀ r.m₁,
        )))
    ∙ ap (drop n) (sym one ∙ two)
    ∙ drop_at (f.before ++ 0 ∷ []) (0 ∷ f.after) n
        (omega (arith, f.size_before, length-append f.before (0 ∷ [])))

-- The length that stands where END_FLAG did.
overlap_lem :
    (buffer front : Bytes) (last : ℕ) (f : Flagged buffer (length (front ++ last ∷ []) + 1))
    (r : Room f.flagged 0 (length (front ++ last ∷ [])))
    → last < 256
    → load16
        (r.a ++ (le16 (length (front ++ last ∷ [])) ++ ((front ++ last ∷ []) ++ r.b)))
        (length (front ++ last ∷ []) + 1)
      ≡ ok last
overlap_lem buffer front last f r lt =
    let packet = front ++ last ∷ [] in
    let h = le16 (length packet) in
    let low : (last % 256 ≡ last) = omega arith in
    let high : (last / 256 % 256 ≡ 0) = omega arith in
    ap (λ c. load16 c (length packet + 1))
      (ap (λ c. r.a ++ (h ++ c))
          (append_assoc front (last ∷ []) r.b
            ∙ ap (λ c. front ++ (last ∷ c)) (behind_lem buffer packet f r))
        ∙ ap (λ c. r.a ++ c) (sym (append_assoc h front (last ∷ 0 ∷ f.after)))
        ∙ sym (append_assoc r.a (h ++ front) (last ∷ 0 ∷ f.after))
        ∙ ap (λ c. (r.a ++ (h ++ front)) ++ c) (rw (low, high)))
    ∙ load16_lem (r.a ++ (h ++ front)) f.after (length packet + 1) last
        (omega (arith, r.size, length-append r.a (h ++ front), length-append front (last ∷ [])))
        (omega arith)

placed_lem :
    (q : FifoQueue) (len : ℕ) (f : Flagged q.buffer (len + 1))
    → 0 < len
    → q.buf_size ≡ 2 * len + 2
    → q.write_pos ≡ len + 1
    → place len q ≡ ok (0, f.flagged)
unfolding place
placed_lem q len f some_byte size at =
    let w : (ltb q.buf_size (q.write_pos + 2) ≡ false) = ground arith in
    let w' : (ltb q.buf_size (q.write_pos + len + 2) ≡ true) = ground arith in
    let written : (store q.buffer q.write_pos (le16 0) ≡ ok f.flagged) = rw (at) f.written in
    rw (w, w', written)

peeked_lem :
    (q : FifoQueue) (n last : ℕ)
    → q.read_bytes < q.write_bytes
    → q.read_pos ≡ n
    → n + 2 ≤ q.buf_size
    → load16 q.buffer n ≡ ok last
    → 0 < last
    → peek_next_pack_len q ≡ ok (last, q)
unfolding next_packet peek_next_pack_len
peeked_lem q n last lt at fits read some_last =
    let some_left : (ltb q.read_bytes q.write_bytes ≡ true) = ground arith in
    let w : (ltb q.buf_size (q.read_pos + 2) ≡ false) = ground arith in
    let nonzero : ((last == 0) ≡ false) = ground arith in
    let read' : (load16 q.buffer q.read_pos ≡ ok last) = rw (at) read in
    rw (some_left, w, read', nonzero)

-- In a buffer of twice the packet's bytes and two more, with the positions one behind the packet's
-- length, an empty queue takes the packet, and the packet's last byte falls on END_FLAG: what
-- is then read as the packet's length is its last byte, if that is not 0.
pub peek-push_packet_overlaps :
    (q : FifoQueue) (front : Bytes) (last : ℕ)
    → IsEmpty q
    → length (front ++ last ∷ []) < 65535
    → 0 < last
    → last < 256
    → q.buf_size ≡ 2 * length (front ++ last ∷ []) + 2
    → q.write_pos ≡ length (front ++ last ∷ []) + 1
    → (full : FifoQueue) × (push_packet (front ++ last ∷ []) q ≡ ok (true, full))
      × (peek_next_pack_len full ≡ ok (last, full))
peek-push_packet_overlaps q front last empty lt some_last byte size at =
    let packet = front ++ last ∷ [] in
    let len : (length packet ≡ length front + 1) = length-append front (last ∷ []) in
    let f = flag_end q.buffer (length packet + 1) (omega (arith, empty.size)) in
    let r = room f.flagged 0 (length packet) (omega (arith, f.size, empty.size)) in
    let full = after_push q packet 0 (r.a ++ (le16 (length packet) ++ (packet ++ r.b))) in
    (
      full,
      push_lem q packet f.flagged 0 r lt (has_room q (length packet) empty lt (omega arith))
          (placed_lem q (length packet) f (omega arith) size at),
      peeked_lem full (length packet + 1) last (omega (arith, empty.counters, empty.far))
          (empty.positions ∙ at) (omega arith) (overlap_lem q.buffer front last f r byte) some_last,
    )
