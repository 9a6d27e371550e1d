-- ===== src/Fifo/Pop.antt =====
-- `PopPacket` takes the packet that was put in first.
use short_message.Prelude.{
  ℕ, ◌+◌, ◌%◌, ◌^◌, ◌<◌, ◌≡◌, ◌⊎◌, inl, inr, refl, sym, true, false, none, some, List, [], ◌∷◌,
  ◌++◌, Bytes, length, arith, ltb, ◌==◌, Bool-cases,
}
use short_message.Memory.{le16}
use short_message.Machine.{ok}
use short_message.Fifo.{FifoQueue, next_packet, pop_packet}
use short_message.Fifo.Windows.{window, load16-window}
use short_message.Fifo.Segment.{Stands, Stands-load16, Stands-load}
use short_message.Fifo.Contents.{Layout, flat, wrapped, Holds}

-- Where the first packet stands, and what is left behind it.
record First (q : FifoQueue) (p : Bytes) (ps : List Bytes) : Type 0 where
  pos : ℕ
  at : (pos ≡ q.read_pos) ⊎ (pos ≡ 0)
  stands : Stands q.buffer pos p
  next : next_packet q ≡ ok (pos, length p)
  rest :
      (read_bytes : ℕ)
      → Layout (record q { read_pos = pos + 2 + length p; read_bytes = read_bytes }) ps

next_here :
    (q : FifoQueue) (p : Bytes)
    → q.buf_size ≡ length q.buffer
    → Stands q.buffer q.read_pos p
    → next_packet q ≡ ok (q.read_pos, length p)
unfolding next_packet
next_here q p size s =
    let w : (ltb q.buf_size (q.read_pos + 2) ≡ false) = ground (arith, s.inside) in
    let full : ((length p == 0) ≡ false) = ground (arith, s.some_bytes) in
    rw (w, Stands-load16 q.buffer p q.read_pos s, full)

next_out :
    (q : FifoQueue) (p : Bytes)
    → Stands q.buffer 0 p
    → q.buf_size < q.read_pos + 2
    → next_packet q ≡ ok (0, length p)
unfolding next_packet
next_out q p s out =
    let w : (ltb q.buf_size (q.read_pos + 2) ≡ true) = ground arith in
    let full : ((length p == 0) ≡ false) = ground (arith, s.some_bytes) in
    rw (w, Stands-load16 q.buffer p 0 s, full)

next_start :
    (q : FifoQueue) (p : Bytes)
    → Stands q.buffer 0 p
    → (q.buf_size < q.read_pos + 2) ⊎ (window q.buffer q.read_pos 2 ≡ le16 0)
    → next_packet q ≡ ok (0, length p)
unfolding next_packet
next_start q p s (inl out) = next_out q p s out
next_start q p s (inr flag) = elim (Bool-cases (ltb q.buf_size (q.read_pos + 2))) [
  | inl out ↦ next_out q p s (ground arith)
  | inr in_range ↦ rw (
    in_range,
    load16-window q.buffer q.read_pos 0 (omega arith) flag,
    Stands-load16 q.buffer p 0 s,
  )
]

first_lem :
    (q : FifoQueue) (p : Bytes) (ps : List Bytes)
    → q.buf_size ≡ length q.buffer
    → Layout q (p ∷ ps)
    → First q p ps
first_lem q p ps size (flat s) = record {
  pos = q.read_pos;
  at = inl refl;
  stands = s.0;
  next = next_here q p size s.0;
  rest = λ _. flat s.1;
}
first_lem q p ps size (wrapped (f ∷ front) b back end parts s over flag t le) =
    let head : (f ≡ p) = cc in
    let tail : (ps ≡ front ++ (b ∷ back)) = cc in
    rw (sym head) (record {
      pos = q.read_pos;
      at = inl refl;
      stands = s.0;
      next = next_here q f size s.0;
      rest = λ _. wrapped front b back end tail s.1 over flag t (omega arith);
    })
first_lem q p ps size (wrapped [] b back end parts s over flag t le) =
    let head : (b ≡ p) = cc in
    let tail : (ps ≡ back) = cc in
    let flag' : ((q.buf_size < q.read_pos + 2) ⊎ (window q.buffer q.read_pos 2 ≡ le16 0)) =
      rw s flag in
    rw (sym head, tail)
      (record {
        pos = 0;
        at = inr refl;
        stands = t.0;
        next = next_start q b t.0 flag';
        rest = λ _. flat t.1;
      })

-- A pop of a queue with packets returns the first, and leaves the others.
pub record Popped (q : FifoQueue) (p : Bytes) (ps : List Bytes) : Type 0 where
  pub rest : FifoQueue
  pub popped : pop_packet q ≡ ok (some (p, rest))
  pub holds : Holds rest ps
  pub same_size : rest.buf_size ≡ q.buf_size
  pub same_counter : rest.write_bytes ≡ q.write_bytes
  pub same_write : rest.write_pos ≡ q.write_pos
  pub next : (rest.read_pos ≡ q.read_pos + 2 + length p) ⊎ (rest.read_pos ≡ 2 + length p)

pub pop_packet-Popped :
    (q : FifoQueue) (p : Bytes) (ps : List Bytes) → Holds q (p ∷ ps) → Popped q p ps
unfolding pop_packet
pop_packet-Popped q p ps h =
    let f = first_lem q p ps h.size h.layout in
    let read = (q.read_bytes + length p + 2) % 2 ^ 64 in
    let some_left : (ltb q.read_bytes q.write_bytes ≡ true) = ground (arith, h.counters) in
    record {
      rest = record q { read_pos = f.pos + 2 + length p; read_bytes = read };
      popped = rw (some_left, f.next, Stands-load q.buffer p f.pos f.stands);
      holds = record {
        layout = f.rest read;
        size = h.size;
        small = h.small;
        reach = h.reach;
        read_reach = omega (arith, h.size, f.stands.inside);
        counters = omega (arith, h.counters, h.far);
        far = h.far;
      };
      same_size = refl;
      same_counter = refl;
      same_write = refl;
      next = elim f.at [ inl e ↦ inl (omega arith) | inr e ↦ inr (omega arith) ];
    }

pub pop_packet-none : (q : FifoQueue) → Holds q [] → pop_packet q ≡ ok none
unfolding pop_packet
pop_packet-none q h =
    let none_left : (ltb q.read_bytes q.write_bytes ≡ false) = ground (arith, h.counters) in
    rw none_left
