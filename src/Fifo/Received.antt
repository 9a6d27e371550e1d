-- ===== src/Fifo/Received.antt =====
-- A packet that is received in place, and given to an empty queue by `Update`.
use short_message.Prelude.{
  ℕ, ◌+◌, ◌*◌, ◌-◌, ◌%◌, ◌^◌, ◌≤◌, ◌<◌, ◌≡◌, ◌⊎◌, inl, inr, refl, ap, sym, ◌∙◌, true, false, some,
  Bytes, ◌++◌, length, length-append, append_assoc, length-take, take, drop, take-append-drop,
  arith, ltb, ◌==◌, Bool-cases,
}
use short_message.Prelude.Int.{ℤ}
use short_message.Memory.{le16}
use short_message.Machine.{ok}
use short_message.Fifo.{FifoQueue, load16, is_full, next_packet, pop_packet, move_on, update, store}
use short_message.Fifo.Splits.{store_lem, load16_lem}
use short_message.Fifo.Packet.{pop_lem}

-- The bytes of a packet stand behind the place of its length, at `recv_pos`, where an empty queue
-- reads next.
pub record IsReceived (q : FifoQueue) (packet : Bytes) (recv_pos : ℕ) : Type 0 where
  pub a : Bytes
  pub m : Bytes
  pub b : Bytes
  pub parts : q.buffer ≡ a ++ (m ++ (packet ++ b))
  pub size_m : length m ≡ 2
  pub before : recv_pos ≡ length a + 2
  pub reads : q.read_pos ≡ length a
  pub counters : q.read_bytes ≡ q.write_bytes
  pub far : q.write_bytes < 2 ^ 63
  pub size : q.buf_size ≡ length q.buffer
  pub small : q.buf_size < 2 ^ 31

-- The queue reads next where `Update` puts the next length, at `recv_pos - 2`.
abbrev pub InStep : FifoQueue → ℕ → Type 0
InStep q recv_pos =
    (q.read_pos + 2 ≡ recv_pos)
    ⊎ ((recv_pos ≡ 2) × ((q.buf_size < q.read_pos + 2) ⊎ (load16 q.buffer q.read_pos ≡ ok 0)))

pub record Given (q : FifoQueue) (packet : Bytes) (recv_pos : ℕ) : Type 0 where
  pub next_pos : ℕ
  pub full : FifoQueue
  pub rest : FifoQueue
  pub updated : update recv_pos (ℤ.pos (length packet)) q ≡ ok (true, next_pos, full)
  pub popped : pop_packet full ≡ ok (some (packet, rest))
  pub counters : rest.read_bytes ≡ rest.write_bytes
  pub in_step : InStep rest next_pos

module _ (q : FifoQueue) (packet : Bytes) (recv_pos : ℕ) (r : IsReceived q packet recv_pos)
    (some_bytes : 0 < length packet) (lt : length packet < 65535)
    (room : 2 * length packet + 2 ≤ q.buf_size) where
  abbrev written : Bytes → Bytes
  written c = r.a ++ (le16 (length packet) ++ (packet ++ c))

  abbrev given : Bytes → FifoQueue
  given c = record q {
    buffer = written c;
    write_bytes = (q.write_bytes + length packet + 2) % 2 ^ 64;
  }

  free : is_full (length packet) q ≡ false
  free = ground (arith, r.counters, r.far, r.small, room)

  fits : length r.a + 2 + length packet + length r.b ≡ q.buf_size
  fits = omega (
    arith,
    r.size,
    ap length r.parts,
    r.size_m,
    length-append r.a (r.m ++ (packet ++ r.b)),
    length-append r.m (packet ++ r.b),
    length-append packet r.b,
  )

  length_written : store q.buffer (recv_pos - 2) (le16 (length packet)) ≡ ok (written r.b)
  length_written =
      let at : (recv_pos - 2 ≡ length r.a) = omega (arith, r.before) in
      rw (at, r.parts)
        (store_lem r.a r.m (packet ++ r.b) (le16 (length packet)) (length r.a) refl r.size_m)

  update_lem :
      (next : ℕ) (c : Bytes)
      → move_on recv_pos (length packet) q (written r.b) ≡ ok (next, written c)
      → update recv_pos (ℤ.pos (length packet)) q ≡ ok (true, next, given c)
  unfolding update
  update_lem next c e =
      let small : (ltb (length packet) 65535 ≡ true) = ground arith in
      let inside : (ltb recv_pos 2 ≡ false) = ground (arith, r.before) in
      let same : (length packet % 2 ^ 16 ≡ length packet) = omega arith in
      let wide : (length packet % 2 ^ 64 ≡ length packet) = omega arith in
      rw (small, inside, same, length_written, free, e, wide) refl

  next_lem : (c : Bytes) → next_packet (given c) ≡ ok (length r.a, length packet)
  unfolding next_packet
  next_lem c =
      let w : (ltb q.buf_size (length r.a + 2) ≡ false) = ground (arith, fits) in
      let nonzero : ((length packet == 0) ≡ false) = ground arith in
      rw (
        r.reads,
        w,
        load16_lem r.a (packet ++ c) (length r.a) (length packet) refl (omega arith),
        nonzero,
      )

  popped_lem :
      (c : Bytes)
      → pop_packet (given c)
        ≡ ok (
            some (
              packet,
              record (given c) {
                read_pos = length r.a + 2 + length packet;
                read_bytes = (q.read_bytes + length packet + 2) % 2 ^ 64;
              },
            ))
  popped_lem c =
      pop_lem (given c) packet r.a c (length r.a) refl refl (omega (arith, r.counters, r.far))
        (next_lem c)

  Given-at :
      (next : ℕ) (c : Bytes)
      → move_on recv_pos (length packet) q (written r.b) ≡ ok (next, written c)
      → InStep
          (record (given c) {
            read_pos = length r.a + 2 + length packet;
            read_bytes = (q.read_bytes + length packet + 2) % 2 ^ 64;
          })
          next
      → Given q packet recv_pos
  Given-at next c e step = record {
    next_pos = next;
    full = given c;
    rest = _;
    updated = update_lem next c e;
    popped = popped_lem c;
    counters = rw r.counters refl;
    in_step = step;
  }

  -- The rest cannot take another length.
  Given-over : q.buf_size < recv_pos + length packet + 2 → Given q packet recv_pos
  unfolding move_on
  Given-over over =
      let w : (ltb q.buf_size (recv_pos + length packet + 2) ≡ true) = ground arith in
      Given-at 2 r.b (rw w refl) (inr (refl, inl (omega (arith, r.before))))

  -- Another packet as long fits behind it.
  Given-on : recv_pos + length packet + 2 + length packet ≤ q.buf_size → Given q packet recv_pos
  unfolding move_on
  Given-on le =
      let w : (ltb q.buf_size (recv_pos + length packet + 2) ≡ false) = ground arith in
      let w' : (ltb q.buf_size (recv_pos + length packet + 2 + length packet) ≡ false) =
        ground arith in
      Given-at (recv_pos + length packet + 2) r.b (rw (w, w') refl) (inl (omega (arith, r.before)))

  -- The packet and what stands before it.
  front : Bytes
  front = r.a ++ (le16 (length packet) ++ packet)

  front_lem : (c : Bytes) → written c ≡ front ++ c
  unfolding front
  front_lem c =
      ap (λ x. r.a ++ x) (sym (append_assoc (le16 (length packet)) packet c))
      ∙ sym (append_assoc r.a (le16 (length packet) ++ packet) c)

  length-front : length front ≡ recv_pos + length packet
  unfolding front
  length-front = omega (arith, r.before, length-append r.a (le16 (length packet) ++ packet))

  abbrev after_flag : Bytes
  after_flag = le16 0 ++ drop 2 r.b

  flag_lem :
      2 ≤ length r.b
      → store (written r.b) (recv_pos + length packet) (le16 0) ≡ ok (written after_flag)
  flag_lem two =
      ap (λ c. store (written c) (recv_pos + length packet) (le16 0)) (sym (take-append-drop 2 r.b))
      ∙ ap (λ c. store c (recv_pos + length packet) (le16 0)) (front_lem (take 2 r.b ++ drop 2 r.b))
      ∙ store_lem front (take 2 r.b) (drop 2 r.b) (le16 0) (recv_pos + length packet) length-front
          (omega (arith, length-take 2 r.b))
      ∙ ap ok (sym (front_lem after_flag))

  flag_read : load16 (written after_flag) (length r.a + 2 + length packet) ≡ ok 0
  flag_read =
      ap (λ c. load16 c (length r.a + 2 + length packet)) (front_lem after_flag)
      ∙ load16_lem front (drop 2 r.b) (length r.a + 2 + length packet) 0
          (omega (arith, length-front, r.before)) (omega arith)

  -- It does not, and END_FLAG marks the rest.
  Given-flagged :
      recv_pos + length packet + 2 ≤ q.buf_size
      → q.buf_size < recv_pos + length packet + 2 + length packet
      → Given q packet recv_pos
  unfolding move_on
  Given-flagged le over =
      let w : (ltb q.buf_size (recv_pos + length packet + 2) ≡ false) = ground arith in
      let w' : (ltb q.buf_size (recv_pos + length packet + 2 + length packet) ≡ true) =
        ground arith in
      let two : (2 ≤ length r.b) = omega (arith, r.before, fits) in
      let flag : (store (written r.b) (recv_pos + length packet) (le16 0)
          ≡ ok (written after_flag)) =
        flag_lem two in
      Given-at 2 after_flag (rw (w, w', flag) refl) (inr (refl, inr flag_read))

  -- A packet that has been received in place: where its bytes stand behind the place of its length,
  -- at the position that an empty queue reads next, `Update` gives it to the queue, and the next
  -- `PopPacket` returns it; and then the queue reads next where the next `Update` will write its
  -- length. The packet has 1 … 65534 bytes, and the buffer has at least twice as many and two more.
  pub update-Given : Given q packet recv_pos
  update-Given = elim (Bool-cases (ltb q.buf_size (recv_pos + length packet + 2))) [
    | inl over ↦ Given-over (ground arith)
    | inr le ↦ elim (Bool-cases (ltb q.buf_size (recv_pos + length packet + 2 + length packet))) [
      | inl over ↦ Given-flagged (ground arith) (ground arith)
      | inr fits ↦ Given-on (ground arith)
    ]
  ]
