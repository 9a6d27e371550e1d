-- ===== src/Crc/Xor.antt =====
-- Laws of `^` on unsigned integers, from the recursion on binary digits that it stands for.
use short_message.Prelude.{
  ℕ, zero, suc, ◌+◌, ◌*◌, ◌/◌, ◌%◌, ◌^◌, ◌≤◌, ◌<◌, ◌≡◌, refl, ap, ◌∙◌, arith,
}
use Prim.Native.Nat.{bit_xor, differ, bit_xor-bitwise}
use short_message.Prelude.Digits.{lowest_digit, mul_pow_suc, div_pow_suc, mod_pow_suc}
use native.Mathlib.Nat.{pow-suc}

differ_digits : (d e : ℕ) → d < 2 → e < 2 → differ d e ≡ (d + e) % 2
differ_digits zero zero p q = refl
differ_digits zero (suc zero) p q = refl
differ_digits zero (suc (suc e)) p q = absurd (omega arith)
differ_digits (suc zero) zero p q = refl
differ_digits (suc zero) (suc zero) p q = refl
differ_digits (suc zero) (suc (suc e)) p q = absurd (omega arith)
differ_digits (suc (suc d)) e p q = absurd (omega arith)

zero-bit_xor : (b : ℕ) → bit_xor 0 b ≡ b
zero-bit_xor = bit_xor-bitwise 0

-- The lowest digit, and the rest.
pub bit_xor_step : (a b : ℕ) → bit_xor a b ≡ bit_xor (a / 2) (b / 2) * 2 + (a % 2 + b % 2) % 2
bit_xor_step zero b = omega (arith, zero-bit_xor b, zero-bit_xor (b / 2))
bit_xor_step (suc a) b = omega (
  arith,
  bit_xor-bitwise (suc a) b,
  bit_xor-bitwise (suc a / 2) (b / 2),
  lowest_digit (λ y. y) differ a b,
  differ_digits (suc a % 2) (b % 2) (omega arith) (omega arith),
)

xor_comm_below : (n a b : ℕ) → a ≤ n → b ≤ n → bit_xor a b ≡ bit_xor b a
xor_comm_below zero zero zero p q = refl
xor_comm_below zero zero (suc b) p q = absurd (omega arith)
xor_comm_below zero (suc a) b p q = absurd (omega arith)
xor_comm_below (suc n) a b p q = omega (
  arith,
  bit_xor_step a b,
  bit_xor_step b a,
  xor_comm_below n (a / 2) (b / 2) (omega arith) (omega arith),
)

pub xor_comm : (a b : ℕ) → bit_xor a b ≡ bit_xor b a
xor_comm a b = xor_comm_below (a + b) a b (omega arith) (omega arith)

pub xor-zero : (a : ℕ) → bit_xor a 0 ≡ a
xor-zero a = xor_comm a 0 ∙ zero-bit_xor a

xor_self_below : (n a : ℕ) → a ≤ n → bit_xor a a ≡ 0
xor_self_below n zero p = refl
xor_self_below zero (suc a) p = absurd (omega arith)
xor_self_below (suc n) (suc a) p =
    omega (arith, bit_xor_step (suc a) (suc a), xor_self_below n (suc a / 2) (omega arith))

pub xor_self : (a : ℕ) → bit_xor a a ≡ 0
xor_self a = xor_self_below a a (omega arith)

xor_assoc_below :
    (n a b c : ℕ) → a ≤ n → b ≤ n → c ≤ n → bit_xor (bit_xor a b) c ≡ bit_xor a (bit_xor b c)
xor_assoc_below zero zero b c p q r = rw (zero-bit_xor b, zero-bit_xor (bit_xor b c))
xor_assoc_below zero (suc a) b c p q r = absurd (omega arith)
xor_assoc_below (suc n) a b c p q r =
    let ab = bit_xor_step a b in
    let bc = bit_xor_step b c in
    let left : (bit_xor a b / 2 ≡ bit_xor (a / 2) (b / 2)) = omega arith in
    let right : (bit_xor b c / 2 ≡ bit_xor (b / 2) (c / 2)) = omega arith in
    omega (
      arith,
      bit_xor_step (bit_xor a b) c,
      bit_xor_step a (bit_xor b c),
      ap (λ x. bit_xor x (c / 2)) left,
      ap (bit_xor (a / 2)) right,
      xor_assoc_below n (a / 2) (b / 2) (c / 2) (omega arith) (omega arith) (omega arith),
    )

pub xor_assoc : (a b c : ℕ) → bit_xor (bit_xor a b) c ≡ bit_xor a (bit_xor b c)
xor_assoc a b c = xor_assoc_below (a + b + c) a b c (omega arith) (omega arith) (omega arith)

-- Shifts to the left and to the right distribute over it,
pub xor_double : (a b : ℕ) → bit_xor (a * 2) (b * 2) ≡ bit_xor a b * 2
xor_double a b =
    let left : (a * 2 / 2 ≡ a) = omega arith in
    let right : (b * 2 / 2 ≡ b) = omega arith in
    omega (
      arith,
      bit_xor_step (a * 2) (b * 2),
      ap (λ x. bit_xor x (b * 2 / 2)) left,
      ap (bit_xor a) right,
    )

pub xor_shift : (k a b : ℕ) → bit_xor (a * 2 ^ k) (b * 2 ^ k) ≡ bit_xor a b * 2 ^ k
xor_shift zero a b = ground arith
xor_shift (suc k) a b =
    rw (mul_pow_suc k a, mul_pow_suc k b, mul_pow_suc k (bit_xor a b))
      (xor_double (a * 2 ^ k) (b * 2 ^ k) ∙ ap (λ (t : ℕ). t * 2) (xor_shift k a b))

pub xor_div : (k a b : ℕ) → bit_xor a b / 2 ^ k ≡ bit_xor (a / 2 ^ k) (b / 2 ^ k)
xor_div zero a b =
    let left : (a / 2 ^ 0 ≡ a) = omega arith in
    let right : (b / 2 ^ 0 ≡ b) = omega arith in rw (left, right) (omega arith)
xor_div (suc k) a b =
    let half : (bit_xor a b / 2 ≡ bit_xor (a / 2) (b / 2)) = omega (arith, bit_xor_step a b) in
    rw (div_pow_suc k a, div_pow_suc k b, div_pow_suc k (bit_xor a b), half)
      (xor_div k (a / 2) (b / 2))

-- and so does the cut to a width.
pub xor_mod : (k a b : ℕ) → bit_xor a b % 2 ^ k ≡ bit_xor (a % 2 ^ k) (b % 2 ^ k)
xor_mod zero a b =
    let left : (a % 2 ^ 0 ≡ 0) = omega arith in
    let right : (b % 2 ^ 0 ≡ 0) = omega arith in rw (left, right) (omega arith)
xor_mod (suc k) a b =
    let x = a / 2 % 2 ^ k in
    let y = b / 2 % 2 ^ k in
    let half : (bit_xor a b / 2 ≡ bit_xor (a / 2) (b / 2)) = omega (arith, bit_xor_step a b) in
    let left : ((x * 2 + a % 2) / 2 ≡ x) = omega arith in
    let right : ((y * 2 + b % 2) / 2 ≡ y) = omega arith in
    rw (mod_pow_suc k a, mod_pow_suc k b, mod_pow_suc k (bit_xor a b), half)
      (omega (
        arith,
        bit_xor_step a b,
        bit_xor_step (x * 2 + a % 2) (y * 2 + b % 2),
        ap (λ z. bit_xor z ((y * 2 + b % 2) / 2)) left,
        ap (bit_xor x) right,
        xor_mod k (a / 2) (b / 2),
      ))

-- Bits that do not meet are added.
pub xor_fields : (k a r : ℕ) → r < 2 ^ k → bit_xor (a * 2 ^ k) r ≡ a * 2 ^ k + r
xor_fields zero a r h = ground (arith, xor-zero a)
xor_fields (suc k) a r h =
    let half : (a * 2 ^ suc k / 2 ≡ a * 2 ^ k) = omega (arith, mul_pow_suc k a) in
    omega (
      arith,
      bit_xor_step (a * 2 ^ suc k) r,
      mul_pow_suc k a,
      ap (λ x. bit_xor x (r / 2)) half,
      xor_fields k a (r / 2) (omega (arith, pow-suc 2 k)),
    )

pub xor-lt : (k a b : ℕ) → a < 2 ^ k → b < 2 ^ k → bit_xor a b < 2 ^ k
xor-lt zero a b p q =
    let a0 : (a ≡ 0) = omega arith in let b0 : (b ≡ 0) = omega arith in rw (a0, b0) (omega arith)
xor-lt (suc k) a b p q = omega (
  arith,
  bit_xor_step a b,
  pow-suc 2 k,
  xor-lt k (a / 2) (b / 2) (omega (arith, pow-suc 2 k)) (omega (arith, pow-suc 2 k)),
)
