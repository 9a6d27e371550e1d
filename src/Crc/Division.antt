-- ===== src/Crc/Division.antt =====
-- The table against the division by the polynomial 0x8005 that its comment names.
use short_message.Prelude.{
  ℕ, Bool, zero, suc, ◌*◌, ◌/◌, ◌%◌, ◌^◌, ◌<◌, ◌≤◌, ◌≡◌, refl, sym, ap, ◌∙◌, arith, true, false,
  ◌&&◌, ◌==◌, ltb, passes_below, passed, if◌then◌else◌, [], ◌∷◌, ◌++◌, Bytes, length, All, get_or,
  Bool-cases, inl, inr,
}
use Prim.Native.Nat.{bit_xor, bit_and}
use short_message.Prelude.Int.{pos}
use short_message.Memory.{htons}
use short_message.Machine.{ok}
use short_message.Crc.{crc16_table, crc16_byte, crc_bytes, crc_16}
use native.Mathlib.Nat.{one-le-pow, mul_right_comm}
use short_message.Prelude.Digits.{mul_pow_suc}
use short_message.Crc.Xor.{
  xor_div, xor-zero, xor_mod, xor_shift, xor_fields, xor_assoc, xor_comm, xor-lt, xor_double,
}

-- One bit of a division by x^16 + x^15 + x^2 + 1: the remainder moves up, and where its highest bit
-- leaves it, the rest of the polynomial is taken off.
unfoldable pub divide_bit : ℕ → ℕ
divide_bit r = if ltb r 0x8000 then r * 2 else bit_xor (r * 2 % 2 ^ 16) 0x8005

abbrev pub divide_bits : ℕ → ℕ → ℕ
divide_bits zero r = r
divide_bits (suc n) r = divide_bits n (divide_bit r)

-- The next eight bits of the message go on top.
unfoldable pub remainder : ℕ → Bytes → ℕ
remainder r [] = r
remainder r (byte ∷ bytes) = remainder (divide_bits 8 (bit_xor r (byte * 2 ^ 8))) bytes

abbrev pub entry : ℕ → ℕ
entry x = get_or crc16_table x 0

-- What is tested of an entry: its value, its range, and the mask of its index.
abbrev table_row : ℕ → Bool
table_row x =
    divide_bits 8 (x * 2 ^ 8) == entry x && (ltb (entry x) (2 ^ 16) && bit_and x 0xff == x)

table_test : passes_below table_row 256 ≡ true
unfolding passes_below crc16_table divide_bit
table_test = refl

read_test :
    (a b c : ℕ) (x : ℕ)
    → (a == b && (ltb b (2 ^ 16) && c == x)) ≡ true
    → (a ≡ b) × (b < 2 ^ 16) × (c ≡ x)
read_test a b c x e = ground arith

pub table_lem :
    (x : ℕ)
    → x < 256
    → (divide_bits 8 (x * 2 ^ 8) ≡ entry x) × (entry x < 2 ^ 16) × (bit_and x 0xff ≡ x)
table_lem x h = read_test _ _ _ _ (passed table_row 256 x h table_test)

-- A division of a sum is the sum of the divisions, here where the second one has no bit to take off.
divide_bit-xor : (r b : ℕ) → b < 2 ^ 15 → divide_bit (bit_xor r b) ≡ bit_xor (divide_bit r) (b * 2)
unfolding divide_bit
divide_bit-xor r b h =
    let low : (b / 2 ^ 15 ≡ 0) = omega arith in
    let top : (bit_xor r b / 2 ^ 15 ≡ r / 2 ^ 15) =
      xor_div 15 r b ∙ ap (bit_xor (r / 2 ^ 15)) low ∙ xor-zero (r / 2 ^ 15) in
    elim (Bool-cases (ltb r 0x8000)) [
      | inl small ↦
          let small' : (ltb (bit_xor r b) 0x8000 ≡ true) = ground arith in
          rw (small, small') (sym (xor_double r b))
      | inr big ↦
          let big' : (ltb (bit_xor r b) 0x8000 ≡ false) = ground arith in
          let cut : (b * 2 % 2 ^ 16 ≡ b * 2) = omega arith in
          let moved = ap (λ x. x % 2 ^ 16) (sym (xor_double r b)) ∙ xor_mod 16 (r * 2) (b * 2) in
          rw (big, big', moved, cut)
            (xor_assoc _ _ _ ∙ ap (bit_xor (r * 2 % 2 ^ 16)) (xor_comm _ _) ∙ sym (xor_assoc _ _ _))
    ]

nat_le_mul : (b p : ℕ) → 1 ≤ p → b ≤ b * p
nat_le_mul b p h = grind arith

divide_bits-xor :
    (n r b : ℕ)
    → b * 2 ^ n < 2 ^ 16
    → divide_bits n (bit_xor r b) ≡ bit_xor (divide_bits n r) (b * 2 ^ n)
divide_bits-xor zero r b h = ap (bit_xor r) (omega arith)
divide_bits-xor (suc n) r b h =
    let moved : (b * 2 ^ suc n ≡ b * 2 * 2 ^ n) =
      mul_pow_suc n b ∙ sym (mul_right_comm b 2 (2 ^ n)) in
    let small : (b < 2 ^ 15) =
      omega (arith, mul_pow_suc n b, nat_le_mul b (2 ^ n) (one-le-pow n 2 (omega arith))) in
    ap (divide_bits n) (divide_bit-xor r b small)
    ∙ divide_bits-xor n (divide_bit r) (b * 2) (omega (arith, moved))
    ∙ ap (bit_xor (divide_bits n (divide_bit r))) (sym moved)

-- One byte of the table's method is eight bits of the division.
pub crc16_byte_lem :
    (r byte : ℕ)
    → r < 2 ^ 16
    → byte < 256
    → crc16_byte r byte ≡ divide_bits 8 (bit_xor r (byte * 2 ^ 8))
unfolding crc16_byte
crc16_byte_lem r byte h hb =
    let high = r / 2 ^ 8 in
    let low = r % 2 ^ 8 in
    let x = bit_xor high byte in
    let lt : (x < 256) = xor-lt 8 high byte (omega arith) hb in
    let (looked, small, masked) = table_lem x lt in
    let whole : (bit_xor (high * 2 ^ 8) low ≡ r) =
      xor_fields 8 high low (omega arith) ∙ omega arith in
    let kept : (r * 2 ^ 8 % 2 ^ 16 ≡ low * 2 ^ 8) = omega arith in
    let fits : (entry x % 2 ^ 16 ≡ entry x) = omega arith in
    let left : (crc16_byte r byte ≡ bit_xor (entry x) (low * 2 ^ 8)) =
      unfold crc16_byte in
      (rw (masked, xor_mod 16 (r * 2 ^ 8) (entry x), kept, fits) (xor_comm _ _)) in
    let right : (bit_xor r (byte * 2 ^ 8) ≡ bit_xor (x * 2 ^ 8) low) =
      ap (λ y. bit_xor y (byte * 2 ^ 8)) (sym whole)
      ∙ xor_assoc _ _ _
      ∙ ap (bit_xor (high * 2 ^ 8)) (xor_comm _ _)
      ∙ sym (xor_assoc _ _ _)
      ∙ ap (λ y. bit_xor y low) (xor_shift 8 high byte) in
    left
    ∙ ap (λ y. bit_xor y (low * 2 ^ 8)) (sym looked)
    ∙ sym (divide_bits-xor 8 (x * 2 ^ 8) low (omega arith))
    ∙ ap (divide_bits 8) (sym right)

pub crc16_byte-lt : (r byte : ℕ) → crc16_byte r byte < 2 ^ 16
unfolding crc16_byte
crc16_byte-lt r byte = omega arith

abbrev pub IsBytes : Bytes → Type 0
IsBytes = All (λ b. b < 256)

remainder_lem :
    (r : ℕ) (buffer rest : Bytes)
    → r < 2 ^ 16
    → IsBytes buffer
    → crc_bytes r (buffer ++ rest) (length buffer) ≡ ok (remainder r buffer)
unfolding crc_bytes remainder
remainder_lem r [] rest h bs = refl
remainder_lem r (b ∷ buffer) rest h bs =
    remainder_lem (crc16_byte r b) buffer rest (crc16_byte-lt r b) bs.1
    ∙ ap (λ s. ok (remainder s buffer)) (crc16_byte_lem r b h bs.0)

-- `CRC_16` from a 16-bit value, over the first bytes of a memory: it is the remainder of the division,
-- bit by bit, by x^16 + x^15 + x^2 + 1, with its two bytes exchanged.
pub crc_16-eq-remainder :
    (crc : ℕ) (buffer rest : Bytes)
    → crc < 2 ^ 16
    → IsBytes buffer
    → crc_16 crc (buffer ++ rest) (pos (length buffer)) ≡ ok (htons (remainder crc buffer))
unfolding crc_16
crc_16-eq-remainder crc buffer rest h bs = rw (remainder_lem crc buffer rest h bs)
