-- ===== src/Float.antt =====
-- C++'s `float` as its 32 bits (IEEE 754 binary32): the comparison and the casts that the code uses.
use short_message.Prelude.{
  ℕ, zero, suc, ◌+◌, ◌-◌, ◌*◌, ◌/◌, ◌%◌, ◌^◌, ◌≡◌, refl, Bool, true, not, ◌&&◌, ◌||◌, ltb, ◌==◌,
  if◌then◌else◌,
}
use short_message.Prelude.Int.{ℤ, pos, negsuc}

abbrev magnitude : ℕ → ℕ
magnitude x = x % 2 ^ 31

abbrev pub is_nan : ℕ → Bool
is_nan x = ltb 0x7f800000 (magnitude x)

-- Orders the values that are not NaN; both zeros have the same rank.
abbrev pub rank : ℕ → ℕ
rank x = if ltb x (2 ^ 31) then 2 ^ 31 + magnitude x else 2 ^ 31 - magnitude x

-- a > b
unfoldable pub gt : ℕ → ℕ → Bool
gt a b = not (is_nan a) && (not (is_nan b) && ltb (rank b) (rank a))

-- -1.0f
abbrev pub minus_one : ℕ
minus_one = 0xbf800000

-- (int32_t) x of a float x ≥ 0. The result of a value from 2^31 up is undefined in C++; x86 gives
-- the least int.
unfoldable pub to_int : ℕ → ℤ
to_int x =
    let v : ℕ = (2 ^ 23 + x % 2 ^ 23) * 2 ^ (x / 2 ^ 23 % 256) / 2 ^ 150 in
    if x / 2 ^ 23 % 256 == 0 then pos 0 else if ltb v (2 ^ 31) then pos v else negsuc (2 ^ 31 - 1)

-- The position of the highest bit.
log2 : ℕ → ℕ → ℕ
log2 zero n = 0
log2 (suc fuel) n = let rest = log2 fuel (n / 2) in if ltb n 2 then 0 else suc rest

-- A quotient by 2 ^ s, rounded to nearest, ties to even.
round_shift : ℕ → ℕ → ℕ
round_shift n zero = n
round_shift n (suc s) =
    let q = n / 2 ^ suc s in
    let r = n % 2 ^ suc s in if ltb (2 ^ s) r || r == 2 ^ s && q % 2 == 1 then q + 1 else q

-- (float) n of a number below 2^32; 32 steps find the highest bit.
of_nat : ℕ → ℕ
unfolding log2 round_shift
of_nat n =
    let k = log2 32 n in
    let significand = (if ltb k 24 then n * 2 ^ (23 - k) else round_shift n (k - 23)) in
    if n == 0 then 0 else (k + 127) * 2 ^ 23 + significand - 2 ^ 23

-- (float) i of an int32_t
unfoldable pub of_int : ℤ → ℕ
unfolding of_nat
of_int (pos n) = of_nat n
of_int (negsuc n) = 2 ^ 31 + of_nat (suc n)

-- 4.4f becomes 4, and 4 becomes 4.0f; 0.5f becomes 0; 2^24 + 3 is rounded to 2^24 + 4.
casts :
    (to_int 0x408ccccd ≡ pos 4)
    × (of_int (pos 4) ≡ 0x40800000)
    × (to_int 0x3f000000 ≡ pos 0)
    × (of_int (pos 16777219) ≡ 0x4b800002)
    × (of_int (negsuc 0) ≡ minus_one)
unfolding to_int of_int
casts = (refl, refl, refl, refl, refl)

comparisons :
    (gt 0x408ccccd 0x40800000 ≡ true)
    × (gt 0x80000000 0 ≡ Bool.false)
    × (gt 0 minus_one ≡ true)
    × (gt 0x7fc00000 0 ≡ Bool.false)
unfolding gt
comparisons = (refl, refl, refl, refl)
