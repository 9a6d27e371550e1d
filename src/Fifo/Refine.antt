-- ===== src/Fifo/Refine.antt =====
-- The ring against a queue of packets: no sequence of calls tells them apart.
use short_message.Prelude.{
  ℕ, ◌+◌, ◌*◌, ◌%◌, ◌^◌, ◌≤◌, ◌<◌, ◌≡◌, ◌≢◌, ◌⊎◌, inl, inr, refl, sym, ap, ◌∙◌, true, false, List,
  [], ◌∷◌, ◌++◌, Bytes, length, arith, ltb, leb, not, All, Bool-cases,
}
use native.Mathlib.Nat.{zero-mod}
use short_message.Machine.{ok}
use short_message.Fifo.{FifoQueue, init, is_full, push_packet}
use short_message.Fifo.Segment.{total, total-append}
use short_message.Fifo.Contents.{flat, Fits, Holds}
use short_message.Fifo.Push.{push_packet-Pushed}
use short_message.Fifo.Pop.{Popped, pop_packet-Popped, pop_packet-none}
use short_message.Fifo.Queue.{Call, push, pop, CallOfLength, run, accepts, serve}
use short_message.Fifo.Uniform.{IsUniform, IsAligned, OfLength, IsAligned-next, room_lem, Fits_lem}

accepts→room :
    (size : ℕ) (ps : List Bytes) (p : Bytes)
    → accepts size ps p ≡ true
    → total ps + 2 * length p + 2 ≤ size
unfolding accepts
accepts→room size ps p e = ground arith

refused_lem :
    (size : ℕ) (ps : List Bytes) (p : Bytes)
    → accepts size ps p ≡ false
    → not (leb (total ps + 2 * length p + 2) size) ≡ true
unfolding accepts
refused_lem size ps p e = ap not e

push_packet-full :
    (q : FifoQueue) (p : Bytes)
    → length p < 65535
    → is_full (length p) q ≡ true
    → push_packet p q ≡ ok (false, q)
unfolding push_packet
push_packet-full q p lt full =
    let small : (ltb (length p) 65535 ≡ true) = ground arith in rw (small, full)

OfLength-append :
    {len : ℕ} (ps : List Bytes) (p : Bytes)
    → OfLength len ps
    → length p ≡ len
    → OfLength len (ps ++ (p ∷ []))
OfLength-append [] p u e = (e, tt)
OfLength-append (q ∷ ps) p u e = (u.0, OfLength-append ps p u.1 e)

le→leb : (a b : ℕ) → a ≤ b → leb a b ≡ true
le→leb a b h = ground arith

module _ (len : ℕ) (some_bytes : 0 < len) (lt : len < 65535) where
  -- A push that is accepted.
  record Accepted (q : FifoQueue) (packet : Bytes) (ps : List Bytes) : Type 0 where
    full : FifoQueue
    pushed : push_packet packet q ≡ ok (true, full)
    holds : Holds full (ps ++ (packet ∷ []))
    uniform : IsUniform len full (ps ++ (packet ∷ []))
    same_size : full.buf_size ≡ q.buf_size
    counter : full.write_bytes ≡ q.write_bytes + len + 2

  accepted_lem :
      (q : FifoQueue) (packet : Bytes) (ps : List Bytes)
      → Holds q ps
      → IsUniform len q ps
      → length packet ≡ len
      → total ps + 2 * len + 2 ≤ q.buf_size
      → q.write_bytes + len + 2 < 2 ^ 63
      → Accepted q packet ps
  accepted_lem q packet ps h u e room far =
      let free : (is_full (length packet) q ≡ false) =
        ap (λ n. is_full n q) e ∙ room_lem len q ps h lt ∙ ap not (le→leb _ _ room) in
      let fits : Fits q ps (length packet) h.layout = rw e (Fits_lem len q ps h u room) in
      let p = push_packet-Pushed q packet ps h (omega arith) (omega arith) free fits in
      let counter : (p.full.write_bytes ≡ q.write_bytes + len + 2) = omega (arith, p.counter) in
      record {
        full = p.full;
        pushed = p.pushed;
        holds = record {
          layout = p.layout;
          size = p.same_size ∙ h.size ∙ sym p.same_length;
          small = omega (arith, p.same_size, h.small);
          reach = omega (arith, p.same_size, p.reach, h.size);
          read_reach = omega (arith, p.same_size, p.same_read, h.read_reach);
          counters =
              omega (arith, counter, p.same_counter, h.counters, total-append ps (packet ∷ []));
          far = omega (arith, counter);
        };
        uniform = record {
          read = rw p.same_read u.read;
          write = aligned p.full.write_pos p.next;
          lengths = OfLength-append ps packet u.lengths e;
          uneven = rw p.same_size u.uneven;
        };
        same_size = p.same_size;
        counter = counter;
      }
    where
      aligned :
          (w : ℕ)
          → (w ≡ q.write_pos + 2 + length packet) ⊎ (w ≡ 2 + length packet)
          → IsAligned len w
      aligned w (inl here) = rw (here, e) (IsAligned-next len q.write_pos u.write)
      aligned w (inr start) = rw (start, e) (IsAligned-next len 0 (zero-mod (len + 2)))

  -- A pop of a queue with packets.
  popped_lem :
      (q : FifoQueue) (p : Bytes) (ps : List Bytes) (r : Popped q p ps)
      → IsUniform len q (p ∷ ps)
      → IsUniform len r.rest ps
  popped_lem q p ps r u = record {
    read = aligned r.rest.read_pos r.next;
    write = rw r.same_write u.write;
    lengths = u.lengths.1;
    uneven = rw r.same_size u.uneven;
  }
    where
      aligned : (x : ℕ) → (x ≡ q.read_pos + 2 + length p) ⊎ (x ≡ 2 + length p) → IsAligned len x
      aligned x (inl here) = rw (here, u.lengths.0) (IsAligned-next len q.read_pos u.read)
      aligned x (inr start) = rw (start, u.lengths.0) (IsAligned-next len 0 (zero-mod (len + 2)))

  run-Holds :
      (calls : List Call) (q : FifoQueue) (ps : List Bytes)
      → Holds q ps
      → IsUniform len q ps
      → All (CallOfLength len) calls
      → q.write_bytes + length calls * (len + 2) < 2 ^ 63
      → run q calls ≡ ok (serve q.buf_size ps calls)
  unfolding run serve
  run-Holds [] q ps h u c far = refl
  run-Holds (pop ∷ calls) q [] h u c far =
      rw (pop_packet-none q h, run-Holds calls q [] h u c.1 (omega arith))
  run-Holds (pop ∷ calls) q (p ∷ ps) h u c far =
      let r = pop_packet-Popped q p ps h in
      let rest =
        run-Holds calls r.rest ps r.holds (popped_lem q p ps r u) c.1
          (omega (arith, r.same_counter)) in
      rw (r.popped, rest, r.same_size)
  run-Holds (push p ∷ calls) q ps h u c far = elim (Bool-cases (accepts q.buf_size ps p)) [
    | inl taken ↦
        let room : (total ps + 2 * len + 2 ≤ q.buf_size) =
          omega (arith, accepts→room q.buf_size ps p taken, c.0) in
        let a = accepted_lem q p ps h u c.0 room (omega arith) in
        let rest =
          run-Holds calls a.full (ps ++ (p ∷ [])) a.holds a.uniform c.1
            (omega (arith, a.counter)) in
        rw (a.pushed, rest, taken, a.same_size)
    | inr refused ↦
        let full : (is_full (length p) q ≡ true) =
          ap (λ n. is_full n q) c.0
          ∙ room_lem len q ps h lt
          ∙ ap (λ n. not (leb (total ps + 2 * n + 2) q.buf_size)) (sym c.0)
          ∙ refused_lem q.buf_size ps p refused in
        rw (
          push_packet-full q p (omega (arith, c.0)) full,
          run-Holds calls q ps h u c.1 (omega arith),
          refused,
        )
  ]

-- A new ring of fewer than 2 ^ 31 bytes is a queue of packets: whatever sequence of pushes of packets
-- of one length, and of pops, it gets, no call accesses memory out of bounds, a push is accepted
-- exactly if twice the packet's bytes and two more are free, a pop returns the packet that has waited
-- longest, and waits exactly if there is none. The length is 1 … 65534, what the buffer's size leaves
-- when it is divided by the length and two is not the length and one, and the bytes that the calls
-- can push stay below 2 ^ 63.
pub run-init :
    (buffer : Bytes) (len : ℕ) (calls : List Call)
    → length buffer < 2 ^ 31
    → 0 < len
    → len < 65535
    → length buffer % (len + 2) ≢ len + 1
    → All (CallOfLength len) calls
    → length calls * (len + 2) < 2 ^ 63
    → run (init buffer) calls ≡ ok (serve (length buffer) [] calls)
run-init buffer len calls small some_bytes lt uneven c far =
    run-Holds len some_bytes lt calls (init buffer) [] holds uniform c (omega arith)
  where
    holds : Holds (init buffer) []
    holds = record {
      layout = flat refl;
      size = refl;
      small = small;
      reach = omega arith;
      read_reach = omega arith;
      counters = refl;
      far = omega arith;
    }

    uniform : IsUniform len (init buffer) []
    uniform = record {
      read = zero-mod (len + 2);
      write = zero-mod (len + 2);
      lengths = tt;
      uneven = uneven;
    }
