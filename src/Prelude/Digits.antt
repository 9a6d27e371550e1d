-- ===== src/Prelude/Digits.antt =====
-- What the native operations on bits stand for, one digit at a time, and powers of two.
use Prim.Native.Nat.{ℕ, zero, suc, ◌+◌, ◌*◌, ◌/◌, ◌%◌, ◌^◌, ◌≤◌, digits, bitwise}
use mathlib.Core.Path.{◌≡◌, refl, sym, ap, ◌∙◌}
use native.Mathlib.Nat.{pow-suc, pow-succ', div-div-eq-div-mul, mod-eq-sub-div-mul, div-mul-le_self}
use native.Mathlib.Omega.{arith}

-- `z` is what is left of the second number where the first one ends, `f` joins two digits.
module _ (z : ℕ → ℕ) (f : ℕ → ℕ → ℕ) where
  digits-zero : (n b : ℕ) → digits z f n 0 b ≡ z b
  digits-zero zero b = refl
  digits-zero (suc n) b = refl

  -- Any count of digits that is not below the first number gives the same.
  enough_digits : (a b n m : ℕ) → a ≤ n → a ≤ m → digits z f n a b ≡ digits z f m a b
  enough_digits zero b n m hn hm = digits-zero n b ∙ sym (digits-zero m b)
  enough_digits (suc a) b zero m hn hm = absurd (omega arith)
  enough_digits (suc a) b (suc n) zero hn hm = absurd (omega arith)
  enough_digits (suc a) b (suc n) (suc m) hn hm =
      ap (λ (x : ℕ). x * 2 + f (suc a % 2) (b % 2))
        (enough_digits (suc a / 2) (b / 2) n m (omega arith) (omega arith))

  pub lowest_digit :
      (a b : ℕ)
      → bitwise z f (suc a) b ≡ bitwise z f (suc a / 2) (b / 2) * 2 + f (suc a % 2) (b % 2)
  lowest_digit a b =
      ap (λ (x : ℕ). x * 2 + f (suc a % 2) (b % 2))
        (enough_digits (suc a / 2) (b / 2) a (suc a / 2) (omega arith) (omega arith))

pub mul_pow_suc : (k a : ℕ) → a * 2 ^ suc k ≡ a * 2 ^ k * 2
mul_pow_suc k a = omega (arith, ap (λ (t : ℕ). a * t) (pow-suc 2 k))

pub div_pow_suc : (k a : ℕ) → a / 2 ^ suc k ≡ a / 2 / 2 ^ k
div_pow_suc k a = ap (λ (p : ℕ). a / p) (pow-succ' 2 k) ∙ sym (div-div-eq-div-mul a 2 (2 ^ k))

pub mod_pow_suc : (k a : ℕ) → a % 2 ^ suc k ≡ a / 2 % 2 ^ k * 2 + a % 2
mod_pow_suc k a = omega (
  arith,
  mod-eq-sub-div-mul a (2 ^ suc k),
  mod-eq-sub-div-mul (a / 2) (2 ^ k),
  mul_pow_suc k (a / 2 ^ suc k),
  ap (λ (q : ℕ). q * 2 ^ k) (div_pow_suc k a),
  div-mul-le_self (a / 2) (2 ^ k),
)
