-- ===== src/Memory.antt =====
-- Reads and writes through casts, `*(uint32_t*)pos`, on a little-endian host, and the byte orders.
use short_message.Prelude.{
  ℕ, ◌+◌, ◌*◌, ◌/◌, ◌%◌, ◌^◌, ◌<◌, ◌≡◌, refl, Option, none, some, [], ◌∷◌, ◌++◌, arith, Bytes, ◌==◌,
  if◌then◌else◌, ap, Bool, true, false, ◌&&◌,
}
use mathlib.Core.Option
use Prim.Native.Char.{code}
use Prim.Native.String.{String}

-- A string literal, as its characters' codes.
abbrev pub text : String → Bytes
text String.[] = []
text (String.◌∷◌ c s) = code c ∷ text s

-- `a == b` and `a.compare(b) == 0` on std::string
unfoldable pub bytes_eq : Bytes → Bytes → Bool
bytes_eq [] [] = true
bytes_eq (x ∷ xs) (y ∷ ys) = x == y && bytes_eq xs ys
bytes_eq _ _ = false

pub bytes_eq_refl : (s : Bytes) → bytes_eq s s ≡ true
unfolding bytes_eq
bytes_eq_refl [] = refl
bytes_eq_refl (a ∷ s) = ground (arith, bytes_eq_refl s)

-- The bytes that a store of a uint16_t or a uint32_t leaves in memory.
abbrev pub le16 : ℕ → Bytes
le16 v = v % 256 ∷ v / 256 % 256 ∷ []

abbrev pub le32 : ℕ → Bytes
le32 v = v % 256 ∷ v / 256 % 256 ∷ v / 65536 % 256 ∷ v / 16777216 % 256 ∷ []

-- A load, and the memory behind it; `none` is a load past the end.
abbrev pub read8 : Bytes → Option (ℕ × Bytes)
read8 [] = none
read8 (a ∷ rest) = some (a, rest)

abbrev pub read16 : Bytes → Option (ℕ × Bytes)
read16 (a ∷ b ∷ rest) = some (a + b * 256, rest)
read16 _ = none

abbrev pub read32 : Bytes → Option (ℕ × Bytes)
read32 (a ∷ b ∷ c ∷ d ∷ rest) = some (a + b * 256 + c * 65536 + d * 16777216, rest)
read32 _ = none

-- `htonl` and `ntohl`, `htons` and `ntohs`, on such a host.
abbrev pub htonl : ℕ → ℕ
htonl v = v % 256 * 16777216 + v / 256 % 256 * 65536 + v / 65536 % 256 * 256 + v / 16777216 % 256

abbrev pub htons : ℕ → ℕ
htons v = v % 256 * 256 + v / 256 % 256

-- `std::string(p)` of a text that has a NUL behind its last byte: what stands before the first NUL.
abbrev pub until_nul : Bytes → Bytes
until_nul [] = []
until_nul (c ∷ cs) = let rest = until_nul cs in if c == 0 then [] else c ∷ rest

-- What `strcpy` and `strlen` read at a `char*`: the bytes before the first NUL.
unfoldable pub c_string : Bytes → Option Bytes
c_string [] = none
c_string (c ∷ cs) = if c == 0 then some [] else Option.map (λ s. c ∷ s) (c_string cs)

-- Bytes without a NUL.
abbrev pub IsText : Bytes → Type 0
IsText [] = Unit {0}
IsText (c ∷ cs) = (0 < c) × IsText cs

pub read16-le16 : (v : ℕ) (rest : Bytes) → v < 2 ^ 16 → read16 (le16 v ++ rest) ≡ some (v, rest)
read16-le16 v rest h = ap (λ (k : ℕ). some (k, rest)) (omega arith)

pub read32-le32 : (v : ℕ) (rest : Bytes) → v < 2 ^ 32 → read32 (le32 v ++ rest) ≡ some (v, rest)
read32-le32 v rest h = ap (λ (k : ℕ). some (k, rest)) (omega arith)

pub htonl-htonl : (v : ℕ) → v < 2 ^ 32 → htonl (htonl v) ≡ v
htonl-htonl v h = omega arith

pub htons-htons : (v : ℕ) → v < 2 ^ 16 → htons (htons v) ≡ v
htons-htons v h = omega arith

pub htonl-lt : (v : ℕ) → htonl v < 2 ^ 32
htonl-lt v = omega arith

pub htons-lt : (v : ℕ) → htons v < 2 ^ 16
htons-lt v = omega arith

-- A text that is followed by a NUL is read back whole.
pub c_string-append : (s rest : Bytes) → IsText s → c_string (s ++ 0 ∷ rest) ≡ some s
unfolding c_string
c_string-append [] rest h = refl
c_string-append (c ∷ cs) rest h = ground (arith, c_string-append cs rest h.1)

-- What is read at a `char*` is a text.
pub c_string-IsText : (m s : Bytes) → c_string m ≡ some s → IsText s
unfolding c_string
c_string-IsText [] s h = cc
c_string-IsText (c ∷ cs) [] h = tt
c_string-IsText (c ∷ cs) (d ∷ s) h = grind (arith, c_string-IsText cs s)
