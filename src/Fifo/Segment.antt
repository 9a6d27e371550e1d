-- ===== src/Fifo/Segment.antt =====
-- Packets that stand one behind the other in the buffer.
use short_message.Prelude.{
  ℕ, ◌+◌, ◌≤◌, ◌<◌, ◌≡◌, ◌⊎◌, inl, inr, ap, ◌∙◌, List, [], ◌∷◌, ◌++◌, Bytes, length, arith,
}
use short_message.Memory.{le16}
use short_message.Machine.{ok}
use short_message.Fifo.{load, load16}
use short_message.Fifo.Windows.{
  window, put, length-put, window-put_before, window-put_after, window-put_self, load-window,
  load16-window,
}

-- A packet with its length before it.
pub record Stands (buffer : Bytes) (pos : ℕ) (packet : Bytes) : Type 0 where
  pub header : window buffer pos 2 ≡ le16 (length packet)
  pub body : window buffer (pos + 2) (length packet) ≡ packet
  pub inside : pos + 2 + length packet ≤ length buffer
  pub some_bytes : 0 < length packet
  pub small : length packet < 65535

-- The packets from one position to another.
abbrev pub Segment : Bytes → ℕ → List Bytes → ℕ → Type 0
Segment buffer pos [] end = pos ≡ end
Segment buffer pos (p ∷ ps) end = Stands buffer pos p × Segment buffer (pos + 2 + length p) ps end

-- The bytes that packets take.
abbrev pub total : List Bytes → ℕ
total [] = 0
total (p ∷ ps) = 2 + length p + total ps

pub total-append : (ps qs : List Bytes) → total (ps ++ qs) ≡ total ps + total qs
total-append [] qs = omega arith
total-append (p ∷ ps) qs = omega (arith, total-append ps qs)

pub Segment-total :
    (buffer : Bytes) (pos end : ℕ) (ps : List Bytes)
    → Segment buffer pos ps end
    → end ≡ pos + total ps
Segment-total buffer pos end [] s = omega arith
Segment-total buffer pos end (p ∷ ps) s =
    omega (arith, Segment-total buffer (pos + 2 + length p) end ps s.1)

pub Segment-le-length :
    (buffer : Bytes) (pos end : ℕ) (ps : List Bytes)
    → pos ≤ length buffer
    → Segment buffer pos ps end
    → end ≤ length buffer
Segment-le-length buffer pos end [] h s = omega arith
Segment-le-length buffer pos end (p ∷ ps) h s =
    Segment-le-length buffer (pos + 2 + length p) end ps (omega (arith, s.0.inside)) s.1

pub Segment-append :
    (buffer : Bytes) (pos mid end : ℕ) (ps qs : List Bytes)
    → Segment buffer pos ps mid
    → Segment buffer mid qs end
    → Segment buffer pos (ps ++ qs) end
Segment-append buffer pos mid end [] qs s t = rw s t
Segment-append buffer pos mid end (p ∷ ps) qs s t =
    (s.0, Segment-append buffer (pos + 2 + length p) mid end ps qs s.1 t)

-- What is loaded of a packet that stands.
pub Stands-load16 :
    (buffer packet : Bytes) (pos : ℕ)
    → Stands buffer pos packet
    → load16 buffer pos ≡ ok (length packet)
Stands-load16 buffer packet pos s =
    load16-window buffer pos (length packet) (omega (arith, s.small)) s.header

pub Stands-load :
    (buffer packet : Bytes) (pos : ℕ)
    → Stands buffer pos packet
    → load buffer (pos + 2) (length packet) ≡ ok packet
Stands-load buffer packet pos s =
    load-window buffer (pos + 2) (length packet) (omega (arith, s.inside)) ∙ ap ok s.body

module _ (buffer bs : Bytes) (at : ℕ) (le : at + length bs ≤ length buffer) where
  -- A store beside a packet, and beside a segment, leaves it.
  Stands-put :
      (pos : ℕ) (packet : Bytes)
      → (pos + 2 + length packet ≤ at) ⊎ (at + length bs ≤ pos)
      → Stands buffer pos packet
      → Stands (put buffer at bs) pos packet
  Stands-put pos packet (inl before) s = record {
    header = window-put_before buffer bs at pos 2 le (omega arith) ∙ s.header;
    body = window-put_before buffer bs at (pos + 2) (length packet) le (omega arith) ∙ s.body;
    inside = omega (arith, s.inside, length-put buffer bs at le);
    some_bytes = s.some_bytes;
    small = s.small;
  }
  Stands-put pos packet (inr after) s = record {
    header = window-put_after buffer bs at pos 2 le after ∙ s.header;
    body = window-put_after buffer bs at (pos + 2) (length packet) le (omega arith) ∙ s.body;
    inside = omega (arith, s.inside, length-put buffer bs at le);
    some_bytes = s.some_bytes;
    small = s.small;
  }

  pub Segment-put_before :
      (pos end : ℕ) (ps : List Bytes)
      → end ≤ at
      → Segment buffer pos ps end
      → Segment (put buffer at bs) pos ps end
  Segment-put_before pos end [] h s = s
  Segment-put_before pos end (p ∷ ps) h s =
      let ends = Segment-total buffer (pos + 2 + length p) end ps s.1 in
      (
        Stands-put pos p (inl (omega arith)) s.0,
        Segment-put_before (pos + 2 + length p) end ps h s.1,
      )

  pub Segment-put_after :
      (pos end : ℕ) (ps : List Bytes)
      → at + length bs ≤ pos
      → Segment buffer pos ps end
      → Segment (put buffer at bs) pos ps end
  Segment-put_after pos end [] h s = s
  Segment-put_after pos end (p ∷ ps) h s = (
    Stands-put pos p (inr h) s.0,
    Segment-put_after (pos + 2 + length p) end ps (omega arith) s.1,
  )

-- The buffer after a packet's two stores.
abbrev pub put_packet : Bytes → ℕ → Bytes → Bytes
put_packet buffer pos packet = put (put buffer pos (le16 (length packet))) (pos + 2) packet

module _ (buffer packet : Bytes) (pos : ℕ) (fits : pos + 2 + length packet ≤ length buffer) where
  pub header_fits : pos + length (le16 (length packet)) ≤ length buffer
  header_fits = omega arith

  pub body_fits : pos + 2 + length packet ≤ length (put buffer pos (le16 (length packet)))
  body_fits = omega (arith, length-put buffer (le16 (length packet)) pos header_fits)

  pub length-put_packet : length (put_packet buffer pos packet) ≡ length buffer
  length-put_packet =
      length-put (put buffer pos (le16 (length packet))) packet (pos + 2) body_fits
      ∙ length-put buffer (le16 (length packet)) pos header_fits

  pub put_packet-Stands :
      0 < length packet → length packet < 65535 → Stands (put_packet buffer pos packet) pos packet
  put_packet-Stands some_bytes small = record {
    header =
        window-put_before (put buffer pos (le16 (length packet))) packet (pos + 2) pos 2 body_fits
          (omega arith)
        ∙ window-put_self buffer (le16 (length packet)) pos header_fits;
    body = window-put_self (put buffer pos (le16 (length packet))) packet (pos + 2) body_fits;
    inside = omega (arith, length-put_packet);
    some_bytes = some_bytes;
    small = small;
  }

  pub Segment-put_packet_before :
      (p end : ℕ) (ps : List Bytes)
      → end ≤ pos
      → Segment buffer p ps end
      → Segment (put_packet buffer pos packet) p ps end
  Segment-put_packet_before p end ps h s =
      Segment-put_before (put buffer pos (le16 (length packet))) packet (pos + 2) body_fits p end ps
        (omega arith)
        (Segment-put_before buffer (le16 (length packet)) pos header_fits p end ps h s)

  pub Segment-put_packet_after :
      (p end : ℕ) (ps : List Bytes)
      → pos + 2 + length packet ≤ p
      → Segment buffer p ps end
      → Segment (put_packet buffer pos packet) p ps end
  Segment-put_packet_after p end ps h s =
      Segment-put_after (put buffer pos (le16 (length packet))) packet (pos + 2) body_fits p end ps
        (omega arith)
        (Segment-put_after buffer (le16 (length packet)) pos header_fits p end ps (omega arith) s)

  pub window-put_packet_after :
      (p n : ℕ)
      → pos + 2 + length packet ≤ p
      → window (put_packet buffer pos packet) p n ≡ window buffer p n
  window-put_packet_after p n h =
      window-put_after (put buffer pos (le16 (length packet))) packet (pos + 2) p n body_fits h
      ∙ window-put_after buffer (le16 (length packet)) pos p n header_fits (omega arith)
