-- ===== src/Fifo/Push.antt =====
-- `PushPacket` puts a packet behind those that the queue holds.
use short_message.Prelude.{
  ℕ, ◌+◌, ◌≤◌, ◌<◌, ◌≡◌, ◌⊎◌, inl, inr, refl, ap, ◌∙◌, true, false, List, [], ◌∷◌, ◌++◌,
  append_assoc, Bytes, length, arith, ltb, Bool-cases,
}
use short_message.Memory.{le16}
use short_message.Machine.{ok}
use short_message.Fifo.{FifoQueue, is_full, place}
use short_message.Fifo.Windows.{window, put, store-put, length-put, window-put_self}
use short_message.Fifo.Segment.{
  Segment, Segment-total, Segment-append, Segment-put_before, put_packet, put_packet-Stands,
  Segment-put_packet_before, Segment-put_packet_after, window-put_packet_after,
}
use short_message.Fifo.Packet.{after_push}
use short_message.Fifo.Contents.{Layout, flat, wrapped, Fits, Pushed, Pushed-at, Holds}

-- The mark at an end stays when a packet goes before it.
flag_after :
    (size : ℕ) (buffer packet : Bytes) (pos end : ℕ)
    → pos + 2 + length packet ≤ length buffer
    → pos + 2 + length packet ≤ end
    → (size < end + 2) ⊎ (window buffer end 2 ≡ le16 0)
    → (size < end + 2) ⊎ (window (put_packet buffer pos packet) end 2 ≡ le16 0)
flag_after size buffer packet pos end fits le (inl out) = inl out
flag_after size buffer packet pos end fits le (inr e) =
    inr (window-put_packet_after buffer packet pos fits end 2 le ∙ e)

module _ (q : FifoQueue) (packet : Bytes) (ps : List Bytes) (size : q.buf_size ≡ length q.buffer)
    (some_bytes : 0 < length packet) (lt : length packet < 65535)
    (free : is_full (length packet) q ≡ false) where
  -- The packet stays behind the last one,
  push_here :
      q.write_pos + length packet + 2 ≤ q.buf_size
      → ((fits : q.write_pos + 2 + length packet ≤ length q.buffer)
          → Layout
              (after_push q packet q.write_pos (put_packet q.buffer q.write_pos packet))
              (ps ++ (packet ∷ [])))
      → Pushed q packet ps
  unfolding place
  push_here le layout =
      let w : (ltb q.buf_size (q.write_pos + 2) ≡ false) = ground arith in
      let w' : (ltb q.buf_size (q.write_pos + length packet + 2) ≡ false) = ground arith in
      let fits : (q.write_pos + 2 + length packet ≤ length q.buffer) = omega (arith, size) in
      Pushed-at q packet ps q.buffer q.write_pos lt free (rw (w, w')) fits refl (inl refl)
        (layout fits)

  push_behind :
      Segment q.buffer q.read_pos ps q.write_pos
      → q.write_pos + length packet + 2 ≤ q.buf_size
      → Pushed q packet ps
  push_behind s le = push_here le λ fits. flat (
      Segment-append (put_packet q.buffer q.write_pos packet) q.read_pos q.write_pos _ ps
        (packet ∷ [])
        (Segment-put_packet_before q.buffer packet q.write_pos fits q.read_pos q.write_pos ps
          (omega arith) s)
        (put_packet-Stands q.buffer packet q.write_pos fits some_bytes lt, refl))

  -- in front of what has not been read,
  push_between :
      (front : List Bytes) (p : Bytes) (back : List Bytes) (end : ℕ)
      → ps ≡ front ++ (p ∷ back)
      → Segment q.buffer q.read_pos front end
      → q.buf_size < end + 2 + length p
      → (q.buf_size < end + 2) ⊎ (window q.buffer end 2 ≡ le16 0)
      → Segment q.buffer 0 (p ∷ back) q.write_pos
      → q.write_pos + length packet + 2 ≤ q.read_pos
      → q.write_pos + length packet + 2 ≤ q.buf_size
      → Pushed q packet ps
  push_between front p back end parts s over flag t gap le = push_here le λ fits.
      let after = put_packet q.buffer q.write_pos packet in
      let ends = Segment-total q.buffer q.read_pos end front s in
      wrapped front p (back ++ (packet ∷ [])) end
        (ap (λ l. l ++ (packet ∷ [])) parts ∙ append_assoc front (p ∷ back) (packet ∷ []))
        (Segment-put_packet_after q.buffer packet q.write_pos fits q.read_pos end front
          (omega arith) s)
        over (flag_after q.buf_size q.buffer packet q.write_pos end fits (omega (arith, ends)) flag)
        (Segment-append after 0 q.write_pos _ (p ∷ back) (packet ∷ [])
          (Segment-put_packet_before q.buffer packet q.write_pos fits 0 q.write_pos (p ∷ back)
            (omega arith) t)
          (put_packet-Stands q.buffer packet q.write_pos fits some_bytes lt, refl))
        (omega arith)

  -- or goes to the start, where END_FLAG marks the rest if it has room for it.
  push_start :
      (buffer : Bytes)
      → place (length packet) q ≡ ok (0, buffer)
      → length buffer ≡ length q.buffer
      → Segment buffer q.read_pos ps q.write_pos
      → q.buf_size < q.write_pos + length packet + 2
      → (q.buf_size < q.write_pos + 2) ⊎ (window buffer q.write_pos 2 ≡ le16 0)
      → length packet + 2 ≤ q.read_pos
      → q.write_pos ≤ q.buf_size
      → Pushed q packet ps
  push_start buffer e same s over flag gap reach =
      let ends = Segment-total buffer q.read_pos q.write_pos ps s in
      let fits : (0 + 2 + length packet ≤ length buffer) = omega (arith, size, same, ends) in
      Pushed-at q packet ps buffer 0 lt free e fits same (inr refl) (
        wrapped ps packet [] q.write_pos refl
          (Segment-put_packet_after buffer packet 0 fits q.read_pos q.write_pos ps (omega arith) s)
          (omega arith)
          (flag_after q.buf_size buffer packet 0 q.write_pos fits (omega (arith, ends)) flag)
          (put_packet-Stands buffer packet 0 fits some_bytes lt, refl) (omega arith))

  push_over :
      Segment q.buffer q.read_pos ps q.write_pos
      → q.buf_size < q.write_pos + length packet + 2
      → length packet + 2 ≤ q.read_pos
      → q.write_pos ≤ q.buf_size
      → Pushed q packet ps
  unfolding place
  push_over s over gap reach = elim (Bool-cases (ltb q.buf_size (q.write_pos + 2))) [
    | inl out ↦ push_start q.buffer (rw out) refl s over (inl (ground arith)) gap reach
    | inr in_range ↦
        let w' : (ltb q.buf_size (q.write_pos + length packet + 2) ≡ true) = ground arith in
        let room : (q.write_pos + length (le16 0) ≤ length q.buffer) = ground (arith, size) in
        push_start (put q.buffer q.write_pos (le16 0))
          (rw (in_range, w', store-put q.buffer (le16 0) q.write_pos room))
          (length-put q.buffer (le16 0) q.write_pos room)
          (Segment-put_before q.buffer (le16 0) q.write_pos room q.read_pos q.write_pos ps
            (omega arith) s)
          over (inr (window-put_self q.buffer (le16 0) q.write_pos room)) gap reach
  ]

-- A push that is not refused, of a packet that does not reach unread bytes, puts it behind the others.
pub push_packet-Pushed :
    (q : FifoQueue) (packet : Bytes) (ps : List Bytes) (h : Holds q ps)
    → 0 < length packet
    → length packet < 65535
    → is_full (length packet) q ≡ false
    → Fits q ps (length packet) h.layout
    → Pushed q packet ps
push_packet-Pushed q packet ps h some_bytes lt free fits = go h.layout fits
  where
    go : (l : Layout q ps) → Fits q ps (length packet) l → Pushed q packet ps
    go (flat s) (inl le) = push_behind q packet ps h.size some_bytes lt free s le
    go (flat s) (inr gap) = elim (Bool-cases (ltb q.buf_size (q.write_pos + length packet + 2))) [
      | inl over ↦ push_over q packet ps h.size some_bytes lt free s (ground arith) gap h.reach
      | inr room ↦ push_behind q packet ps h.size some_bytes lt free s (ground arith)
    ]
    go (wrapped front p back end parts s over flag t le) gap =
        push_between q packet ps h.size some_bytes lt free front p back end parts s over flag t gap
          (omega (arith, h.read_reach))
