-- ===== src/Fifo/Windows.antt =====
-- What stands in a part of the buffer, before and after a store.
use short_message.Prelude.{
  ℕ, zero, suc, ◌+◌, ◌≤◌, ◌<◌, ◌^◌, ◌≡◌, refl, sym, ap, ◌∙◌, false, [], ◌∷◌, ◌++◌, Bytes, length,
  length-append, length-take, length-drop, take, drop, take-append-drop, arith, append_assoc, ltb,
  some,
}
use short_message.Memory.{le16, read16, read16-le16}
use short_message.Machine.{ok}
use short_message.Fifo.{store, load, load16}
use short_message.Fifo.Splits.{drop_beyond, take_at, drop_at}

abbrev pub window : Bytes → ℕ → ℕ → Bytes
window buffer pos n = take n (drop pos buffer)

-- The buffer after a store that is in bounds.
abbrev pub put : Bytes → ℕ → Bytes → Bytes
put buffer pos bs = take pos buffer ++ bs ++ drop (pos + length bs) buffer

pub store-put :
    (buffer bs : Bytes) (pos : ℕ)
    → pos + length bs ≤ length buffer
    → store buffer pos bs ≡ ok (put buffer pos bs)
unfolding store
store-put buffer bs pos le =
    let fits : (ltb (length buffer) (pos + length bs) ≡ false) = ground arith in rw fits

pub load-window :
    (buffer : Bytes) (pos n : ℕ)
    → pos + n ≤ length buffer
    → load buffer pos n ≡ ok (window buffer pos n)
unfolding load
load-window buffer pos n le =
    let fits : (ltb (length buffer) (pos + n) ≡ false) = ground arith in rw fits

read16-take : (m : Bytes) (v : ℕ) → take 2 m ≡ le16 v → m ≡ le16 v ++ drop 2 m
read16-take m v e = sym (take-append-drop 2 m) ∙ ap (λ h. h ++ drop 2 m) e

pub load16-window :
    (buffer : Bytes) (pos v : ℕ)
    → v < 2 ^ 16
    → window buffer pos 2 ≡ le16 v
    → load16 buffer pos ≡ ok v
unfolding load16
load16-window buffer pos v lt e =
    let m = drop pos buffer in
    let read : (read16 m ≡ some (v, drop 2 m)) =
      ap read16 (read16-take m v e) ∙ read16-le16 v (drop 2 m) lt in
    rw read

pub length-put :
    (buffer bs : Bytes) (pos : ℕ)
    → pos + length bs ≤ length buffer
    → length (put buffer pos bs) ≡ length buffer
length-put buffer bs pos le = omega (
  arith,
  length-append (take pos buffer ++ bs) (drop (pos + length bs) buffer),
  length-append (take pos buffer) bs,
  length-take pos buffer,
  length-drop (pos + length bs) buffer,
)

take-append_le : (n : ℕ) (a r : Bytes) → n ≤ length a → take n (a ++ r) ≡ take n a
take-append_le zero a r h = refl
take-append_le (suc n) [] r h = absurd (omega arith)
take-append_le (suc n) (x ∷ a) r h = ap (λ t. x ∷ t) (take-append_le n a r (omega arith))

window-append_front :
    (a r : Bytes) (pos n : ℕ) → pos + n ≤ length a → window (a ++ r) pos n ≡ window a pos n
window-append_front a r zero n h = take-append_le n a r (omega arith)
window-append_front [] r (suc pos) n h = absurd (omega arith)
window-append_front (x ∷ a) r (suc pos) n h = window-append_front a r pos n (omega arith)

-- A store changes only what it covers.
pub window-put_before :
    (buffer bs : Bytes) (pos p n : ℕ)
    → pos + length bs ≤ length buffer
    → p + n ≤ pos
    → window (put buffer pos bs) p n ≡ window buffer p n
window-put_before buffer bs pos p n le before =
    let a = take pos buffer in
    let inside : (p + n ≤ length a) = omega (arith, length-take pos buffer) in
    ap (λ c. window c p n) (append_assoc a bs (drop (pos + length bs) buffer))
    ∙ window-append_front a (bs ++ drop (pos + length bs) buffer) p n inside
    ∙ sym (window-append_front a (drop pos buffer) p n inside)
    ∙ ap (λ c. window c p n) (take-append-drop pos buffer)

pub window-put_after :
    (buffer bs : Bytes) (pos p n : ℕ)
    → pos + length bs ≤ length buffer
    → pos + length bs ≤ p
    → window (put buffer pos bs) p n ≡ window buffer p n
window-put_after buffer bs pos p n le after =
    let b = drop (pos + length bs) buffer in
    ap (take n) (
      drop_beyond (take pos buffer ++ bs) (take (pos + length bs) buffer) b p
        (omega (
          arith,
          length-append (take pos buffer) bs,
          length-take pos buffer,
          length-take (pos + length bs) buffer,
        ))
        (omega (arith, length-append (take pos buffer) bs, length-take pos buffer))
      ∙ ap (drop p) (take-append-drop (pos + length bs) buffer))

pub window-put_self :
    (buffer bs : Bytes) (pos : ℕ)
    → pos + length bs ≤ length buffer
    → window (put buffer pos bs) pos (length bs) ≡ bs
window-put_self buffer bs pos le =
    let b = drop (pos + length bs) buffer in
    ap (λ c. window c pos (length bs)) (append_assoc (take pos buffer) bs b)
    ∙ ap (take (length bs))
        (drop_at (take pos buffer) (bs ++ b) pos (omega (arith, length-take pos buffer)))
    ∙ take_at bs b (length bs) refl
