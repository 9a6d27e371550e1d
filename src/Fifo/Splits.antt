-- ===== src/Fifo/Splits.antt =====
-- Stores and loads in a buffer that is split at the positions they use.
use short_message.Prelude.{
  ℕ, zero, suc, ◌+◌, ◌≤◌, ◌<◌, ◌^◌, ◌≡◌, refl, sym, ap, ◌∙◌, false, [], ◌∷◌, ◌++◌, Bytes, length,
  length-append, length-take, length-drop, take, drop, take-append-drop, arith, append_assoc, ltb,
}
use short_message.Memory.{le16}
use short_message.Machine.{ok}
use short_message.Fifo.{store, load, load16}

pub take-append : (s rest : Bytes) → take (length s) (s ++ rest) ≡ s
take-append [] rest = refl
take-append (x ∷ s) rest = ap (λ t. x ∷ t) (take-append s rest)

pub drop-append : (s rest : Bytes) → drop (length s) (s ++ rest) ≡ rest
drop-append [] rest = refl
drop-append (x ∷ s) rest = drop-append s rest

-- A buffer in three parts, the first and the second of given lengths.
pub record Split (buffer : Bytes) (pos n : ℕ) : Type 0 where
  pub before : Bytes
  pub at : Bytes
  pub after : Bytes
  pub parts : buffer ≡ before ++ (at ++ after)
  pub size : length before ≡ pos
  pub size_at : length at ≡ n

pub split : (buffer : Bytes) (pos n : ℕ) → pos + n ≤ length buffer → Split buffer pos n
split buffer pos n le = record {
  before = take pos buffer;
  at = take n (drop pos buffer);
  after = drop n (drop pos buffer);
  parts =
      sym (take-append-drop pos buffer)
      ∙ ap (λ b. take pos buffer ++ b) (sym (take-append-drop n (drop pos buffer)));
  size = omega (arith, length-take pos buffer);
  size_at = omega (arith, length-take n (drop pos buffer), length-drop pos buffer);
}

drop-append2 : (a m b : Bytes) (n : ℕ) → n ≡ length a + length m → drop n (a ++ (m ++ b)) ≡ b
drop-append2 a m b n e =
    let all : (n ≡ length (a ++ m)) = omega (arith, length-append a m) in
    rw (all, sym (append_assoc a m b)) (drop-append (a ++ m) b)

pub take_at : (a r : Bytes) (pos : ℕ) → length a ≡ pos → take pos (a ++ r) ≡ a
take_at a r pos e = rw (sym e) (take-append a r)

pub drop_at : (a r : Bytes) (pos : ℕ) → length a ≡ pos → drop pos (a ++ r) ≡ r
drop_at a r pos e = rw (sym e) (drop-append a r)

pub store_lem :
    (a m b bs : Bytes) (pos : ℕ)
    → length a ≡ pos
    → length m ≡ length bs
    → store (a ++ (m ++ b)) pos bs ≡ ok (a ++ (bs ++ b))
unfolding store
store_lem a m b bs pos ea em =
    let fits : (ltb (length (a ++ (m ++ b))) (pos + length bs) ≡ false) =
      ground (arith, length-append a (m ++ b), length-append m b) in
    rw (fits, take_at a (m ++ b) pos ea, drop-append2 a m b (pos + length bs) (omega arith))
      (ap ok (append_assoc a bs b))

pub load_lem :
    (a m b : Bytes) (pos n : ℕ) → length a ≡ pos → length m ≡ n → load (a ++ (m ++ b)) pos n ≡ ok m
unfolding load
load_lem a m b pos n ea em =
    let fits : (ltb (length (a ++ (m ++ b))) (pos + n) ≡ false) =
      ground (arith, length-append a (m ++ b), length-append m b) in
    rw (fits, drop_at a (m ++ b) pos ea, take_at m b n em)

pub load16_lem :
    (a b : Bytes) (pos v : ℕ) → length a ≡ pos → v < 2 ^ 16 → load16 (a ++ (le16 v ++ b)) pos ≡ ok v
unfolding load16
load16_lem a b pos v ea lt = rw (drop_at a (le16 v ++ b) pos ea) (ap ok (omega arith))

-- What lies behind a part of the buffer does not depend on it.
pub drop_beyond :
    (x y b : Bytes) (n : ℕ) → length x ≡ length y → length x ≤ n → drop n (x ++ b) ≡ drop n (y ++ b)
drop_beyond [] [] b n e le = refl
drop_beyond [] (v ∷ y) b n e le = absurd (omega arith)
drop_beyond (u ∷ x) [] b n e le = absurd (omega arith)
drop_beyond (u ∷ x) (v ∷ y) b zero e le = absurd (omega arith)
drop_beyond (u ∷ x) (v ∷ y) b (suc n) e le = drop_beyond x y b n (omega arith) (omega arith)

pub load16_beyond :
    (x y b : Bytes) (n : ℕ)
    → length x ≡ length y
    → length x ≤ n
    → load16 (x ++ b) n ≡ load16 (y ++ b) n
unfolding load16
load16_beyond x y b n e le = rw (drop_beyond x y b n e le)
