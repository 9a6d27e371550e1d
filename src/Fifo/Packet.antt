-- ===== src/Fifo/Packet.antt =====
-- A packet in the buffer: the stores of `PushPacket` and the loads of `PopPacket`.
use short_message.Prelude.{
  ℕ, ◌+◌, ◌%◌, ◌^◌, ◌≤◌, ◌<◌, ◌≡◌, refl, sym, ap, ◌∙◌, true, false, some, Bytes, ◌++◌, length,
  length-append, arith, append_assoc, ltb,
}
use short_message.Memory.{le16}
use short_message.Machine.{bind_assoc, ok, ◌>>=◌}
use short_message.Fifo.{
  FifoQueue, store, load, load16, is_full, place, push_packet, next_packet, pop_packet,
}
use short_message.Fifo.Splits.{split, store_lem, load_lem, load16_lem, load16_beyond}

-- `push_packet`'s two stores in a buffer that is split where they go.
pub stores_lem :
    (a m₀ m₁ b packet : Bytes) (pos : ℕ)
    → length a ≡ pos
    → length m₀ ≡ 2
    → length m₁ ≡ length packet
    → (store (a ++ (m₀ ++ (m₁ ++ b))) pos (le16 (length packet)) >>= λ c. store c (pos + 2) packet)
      ≡ ok (a ++ (le16 (length packet) ++ (packet ++ b)))
stores_lem a m₀ m₁ b packet pos ea e₀ e₁ =
    let h = le16 (length packet) in
    let head : (length (a ++ h) ≡ pos + 2) = omega (arith, length-append a h) in
    rw (store_lem a m₀ (m₁ ++ b) h pos ea e₀) (
      ap (λ c. store c (pos + 2) packet) (sym (append_assoc a h (m₁ ++ b)))
      ∙ store_lem (a ++ h) m₁ b packet (pos + 2) head e₁
      ∙ ap ok (append_assoc a h (packet ++ b)))

-- What `pop_packet` loads of it.
pub loads_lem :
    (a b packet : Bytes) (pos : ℕ)
    → length a ≡ pos
    → load (a ++ (le16 (length packet) ++ (packet ++ b))) (pos + 2) (length packet) ≡ ok packet
loads_lem a b packet pos ea =
    let h = le16 (length packet) in
    let head : (length (a ++ h) ≡ pos + 2) = omega (arith, length-append a h) in
    ap (λ c. load c (pos + 2) (length packet)) (sym (append_assoc a h (packet ++ b)))
    ∙ load_lem (a ++ h) packet b (pos + 2) (length packet) head refl

-- A buffer with room for a packet at a position.
pub record Room (buffer : Bytes) (pos len : ℕ) : Type 0 where
  pub a : Bytes
  pub m₀ : Bytes
  pub m₁ : Bytes
  pub b : Bytes
  pub parts : buffer ≡ a ++ (m₀ ++ (m₁ ++ b))
  pub size : length a ≡ pos
  pub size₀ : length m₀ ≡ 2
  pub size₁ : length m₁ ≡ len

pub room : (buffer : Bytes) (pos len : ℕ) → pos + 2 + len ≤ length buffer → Room buffer pos len
room buffer pos len le =
    let s = split buffer pos (2 + len) (omega arith) in
    let t = split s.at 2 len (omega (arith, s.size_at)) in
    record {
      a = s.before;
      m₀ = t.before;
      m₁ = t.at;
      b = t.after ++ s.after;
      parts =
          s.parts
          ∙ ap (λ c. s.before ++ (c ++ s.after)) t.parts
          ∙ ap (λ c. s.before ++ c)
              (append_assoc t.before (t.at ++ t.after) s.after
                ∙ ap (λ c. t.before ++ c) (append_assoc t.at t.after s.after));
      size = s.size;
      size₀ = t.size;
      size₁ = t.size_at;
    }

-- A push that puts the packet at `pos`, and the pop that finds it there.
abbrev pub after_push : FifoQueue → Bytes → ℕ → Bytes → FifoQueue
after_push q packet pos buffer = record q {
  buffer = buffer;
  write_pos = pos + 2 + length packet;
  write_bytes = (q.write_bytes + length packet + 2) % 2 ^ 64;
}

pub push_lem :
    (q : FifoQueue) (packet buffer : Bytes) (pos : ℕ) (r : Room buffer pos (length packet))
    → length packet < 65535
    → is_full (length packet) q ≡ false
    → place (length packet) q ≡ ok (pos, buffer)
    → push_packet packet q
      ≡ ok (true, after_push q packet pos (r.a ++ (le16 (length packet) ++ (packet ++ r.b))))
unfolding push_packet
push_lem q packet buffer pos r lt free e =
    let small : (ltb (length packet) 65535 ≡ true) = ground arith in
    let done =
      ap (λ c. store c pos (le16 (length packet)) >>= λ c. store c (pos + 2) packet) r.parts
      ∙ stores_lem r.a r.m₀ r.m₁ r.b packet pos r.size r.size₀ r.size₁ in
    rw (small, free, e)
      (bind_assoc (store buffer pos (le16 (length packet))) (λ c. store c (pos + 2) packet)
          (λ c. ok (true, after_push q packet pos c))
        ∙ ap (λ m. m >>= λ c. ok (true, after_push q packet pos c)) done)

pub pop_lem :
    (q : FifoQueue) (packet a b : Bytes) (pos : ℕ)
    → q.buffer ≡ a ++ (le16 (length packet) ++ (packet ++ b))
    → length a ≡ pos
    → q.read_bytes < q.write_bytes
    → next_packet q ≡ ok (pos, length packet)
    → pop_packet q
      ≡ ok (
          some (
            packet,
            record q {
              read_pos = pos + 2 + length packet;
              read_bytes = (q.read_bytes + length packet + 2) % 2 ^ 64;
            },
          ))
unfolding pop_packet
pop_lem q packet a b pos parts ea lt next =
    let some_left : (ltb q.read_bytes q.write_bytes ≡ true) = ground arith in
    let loaded = ap (λ c. load c (pos + 2) (length packet)) parts ∙ loads_lem a b packet pos ea in
    rw (some_left, next, loaded)

-- The buffer after END_FLAG, and the length that is read at it.
pub record Flagged (buffer : Bytes) (pos : ℕ) : Type 0 where
  pub flagged : Bytes
  pub before : Bytes
  pub after : Bytes
  pub shape : flagged ≡ before ++ (le16 0 ++ after)
  pub size_before : length before ≡ pos
  pub written : store buffer pos (le16 0) ≡ ok flagged
  pub size : length flagged ≡ length buffer
  pub flag : load16 flagged pos ≡ ok 0

pub flag_end : (buffer : Bytes) (pos : ℕ) → pos + 2 ≤ length buffer → Flagged buffer pos
flag_end buffer pos le =
    let s = split buffer pos 2 le in
    record {
      flagged = s.before ++ (le16 0 ++ s.after);
      before = s.before;
      after = s.after;
      shape = refl;
      size_before = s.size;
      written =
          ap (λ c. store c pos (le16 0)) s.parts
          ∙ store_lem s.before s.at s.after (le16 0) pos s.size s.size_at;
      size = omega (
        arith,
        ap length s.parts,
        s.size_at,
        length-append s.before (le16 0 ++ s.after),
        length-append s.before (s.at ++ s.after),
        length-append s.at s.after,
      );
      flag = load16_lem s.before s.after pos 0 s.size (omega arith);
    }

-- A packet at the start leaves what stands behind it.
pub load16_behind :
    (buffer packet : Bytes) (pos : ℕ) (r : Room buffer 0 (length packet))
    → 2 + length packet ≤ pos
    → load16 (r.a ++ (le16 (length packet) ++ (packet ++ r.b))) pos ≡ load16 buffer pos
load16_behind buffer packet pos r le =
    let h = le16 (length packet) in
    ap (λ c. load16 c pos)
      (ap (λ c. r.a ++ c) (sym (append_assoc h packet r.b))
        ∙ sym (append_assoc r.a (h ++ packet) r.b))
    ∙ load16_beyond (r.a ++ (h ++ packet)) (r.a ++ (r.m₀ ++ r.m₁)) r.b pos
        (omega (
          arith,
          r.size₀,
          r.size₁,
          length-append r.a (h ++ packet),
          length-append r.a (r.m₀ ++ r.m₁),
          length-append r.m₀ r.m₁,
        ))
        (omega (arith, r.size, length-append r.a (h ++ packet)))
    ∙ ap (λ c. load16 c pos)
        (append_assoc r.a (r.m₀ ++ r.m₁) r.b
          ∙ ap (λ c. r.a ++ c) (append_assoc r.m₀ r.m₁ r.b)
          ∙ sym r.parts)
