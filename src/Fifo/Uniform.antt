-- ===== src/Fifo/Uniform.antt =====
-- Packets of one length: what `PushPacket` accepts never reaches what has not been read.
use short_message.Prelude.{
  ℕ, ◌+◌, ◌*◌, ◌-◌, ◌%◌, ◌≤◌, ◌<◌, ◌≡◌, ◌≢◌, inl, inr, sym, ap, ◌∙◌, List, [], ◌∷◌, ◌++◌, Bytes,
  length, arith, leb, not, All, Bool-cases,
}
use native.Mathlib.Nat.{mod-add-mod, mod-eq_of_lt, add-mod_right}
use short_message.Fifo.{FifoQueue, is_full}
use short_message.Fifo.Segment.{Segment, Segment-total, Segment-le-length, total, total-append}
use short_message.Fifo.Contents.{Layout, flat, wrapped, Fits, Holds}

-- The bytes between two positions at which packets of one length can stand.
module _ (len : ℕ) where
  abbrev pub IsAligned : ℕ → Type 0
  IsAligned x = x % (len + 2) ≡ 0

  abbrev pub OfLength : List Bytes → Type 0
  OfLength = All (λ p. length p ≡ len)

  pub IsAligned-next : (x : ℕ) → IsAligned x → IsAligned (x + 2 + len)
  IsAligned-next x h = ap (λ (y : ℕ). y % (len + 2)) (omega arith) ∙ add-mod_right x (len + 2) ∙ h

  -- Where a buffer ends less than a packet behind such a position, it does not end one byte before.
  rest_lem :
      (x size : ℕ)
      → IsAligned x
      → x ≤ size
      → size < x + len + 2
      → size % (len + 2) ≢ len + 1
      → size ≤ x + len
  rest_lem x size h le lt uneven =
      let k = len + 2 in
      let d = size - x in
      let rest : (size % k ≡ d) =
        ap (λ (y : ℕ). y % k) (omega arith)
        ∙ sym (mod-add-mod x k d)
        ∙ ap (λ (y : ℕ). (y + d) % k) h
        ∙ mod-eq_of_lt {n = 0 + d} {m = k} (omega arith)
        ∙ omega arith in
      elim (Bool-cases (leb size (x + len))) [
        | inl fits ↦ ground arith
        | inr over ↦ absurd (uneven (rest ∙ ground arith))
      ]

  Segment-IsAligned :
      (buffer : Bytes) (pos end : ℕ) (ps : List Bytes)
      → OfLength ps
      → Segment buffer pos ps end
      → IsAligned pos
      → IsAligned end
  Segment-IsAligned buffer pos end [] u s h = rw (sym s) h
  Segment-IsAligned buffer pos end (p ∷ ps) u s h =
      Segment-IsAligned buffer (pos + 2 + length p) end ps u.1 s.1 (rw u.0 (IsAligned-next pos h))

  total_lem :
      (front back : List Bytes) (p : Bytes)
      → total (front ++ (p ∷ back)) ≡ total front + 2 + length p + total back
  total_lem front back p = omega (arith, total-append front (p ∷ back))

  OfLength-front :
      (front back : List Bytes) → OfLength (front ++ back) → OfLength front × OfLength back
  OfLength-front [] back u = (tt, u)
  OfLength-front (p ∷ front) back u = let (a, b) = OfLength-front front back u.1 in ((u.0, a), b)

  -- The test of the room, as long as the counters do not wrap.
  pub room_lem :
      (q : FifoQueue) (ps : List Bytes)
      → Holds q ps
      → len < 65535
      → is_full len q ≡ not (leb (total ps + 2 * len + 2) q.buf_size)
  room_lem q ps h lt = ground (arith, h.counters, h.far, h.small)

  -- The positions of a queue that has held packets of one length only.
  pub record IsUniform (q : FifoQueue) (ps : List Bytes) : Type 0 where
    pub read : IsAligned q.read_pos
    pub write : IsAligned q.write_pos
    pub lengths : OfLength ps
    pub uneven : q.buf_size % (len + 2) ≢ len + 1

  pub Fits_lem :
      (q : FifoQueue) (ps : List Bytes) (h : Holds q ps)
      → IsUniform q ps
      → total ps + 2 * len + 2 ≤ q.buf_size
      → Fits q ps len h.layout
  Fits_lem q ps h u room = go h.layout
    where
      go : (l : Layout q ps) → Fits q ps len l
      go (flat s) = elim (Bool-cases (leb (q.write_pos + len + 2) q.buf_size)) [
        | inl fits ↦ inl (ground arith)
        | inr over ↦ inr (
            let le = rest_lem q.write_pos q.buf_size u.write h.reach (ground arith) u.uneven in
            omega (arith, le, Segment-total q.buffer q.read_pos q.write_pos ps s, room))
      ]
      go (wrapped front p back end parts s over flag t le) =
          let (uf, ub) = OfLength-front front (p ∷ back) (rw (sym parts) u.lengths) in
          let ends = Segment-total q.buffer q.read_pos end front s in
          let tail = Segment-total q.buffer 0 q.write_pos (p ∷ back) t in
          let all : (total ps ≡ total front + 2 + length p + total back) =
            ap total parts ∙ total_lem front back p in
          let inside =
            Segment-le-length q.buffer q.read_pos end front (omega (arith, h.read_reach, h.size))
              s in
          let gap =
            rest_lem end q.buf_size (Segment-IsAligned q.buffer q.read_pos end front uf s u.read)
              (omega (arith, inside, h.size)) (omega (arith, over, ub.0)) u.uneven in
          omega (arith, gap, ends, tail, all, room)
