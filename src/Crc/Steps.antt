-- ===== src/Crc/Steps.antt =====
-- No two runs of the checksum's step meet: what can be told from its results.
use short_message.Prelude.{
  ℕ, Bool, ◌*◌, ◌/◌, ◌%◌, ◌^◌, ◌<◌, ◌≡◌, refl, sym, ap, ◌∙◌, arith, true, ◌==◌, ==_iff,
  passes_below, passed, List, [], ◌∷◌, ◌++◌, Bytes,
}
use Prim.Native.Nat.{bit_xor}
use short_message.Crc.{crc16_table, crc16_byte}
use short_message.Crc.Xor.{xor_assoc, xor_self, xor-zero, xor_mod, xor_comm, xor-lt}
use short_message.Crc.Division.{
  remainder, IsBytes, entry, table_lem, crc16_byte-lt, crc16_byte_lem, divide_bits,
}

-- The index of an entry, from the entry's low byte: the sum of one value for each bit that is set.
recover : ℕ → List ℕ → ℕ
recover low [] = 0
recover low (c ∷ cs) = bit_xor (low % 2 * c) (recover (low / 2) cs)

abbrev columns : List ℕ
columns = 0x7f ∷ 0xff ∷ 0x7e ∷ 0xfc ∷ 0x78 ∷ 0xf0 ∷ 0x60 ∷ 0xc0 ∷ []

abbrev recovered : ℕ → Bool
recovered x = recover (entry x % 256) columns == x

recover_test : passes_below recovered 256 ≡ true
unfolding passes_below crc16_table recover
recover_test = refl

-- No two entries have the same low byte.
entry-inj : (x y : ℕ) → x < 256 → y < 256 → entry x % 256 ≡ entry y % 256 → x ≡ y
entry-inj x y p q e =
    sym ((==_iff (recover (entry x % 256) columns) x).0 (passed recovered 256 x p recover_test))
    ∙ ap (λ low. recover low columns) e
    ∙ (==_iff (recover (entry y % 256) columns) y).0 (passed recovered 256 y q recover_test)

xor_cancel : (a b c : ℕ) → bit_xor a c ≡ bit_xor b c → a ≡ b
xor_cancel a b c e = sym (undo a) ∙ ap (λ x. bit_xor x c) e ∙ undo b
  where
    undo : (x : ℕ) → bit_xor (bit_xor x c) c ≡ x
    undo x = xor_assoc x c c ∙ ap (bit_xor x) (xor_self c) ∙ xor-zero x

-- The step in terms of the entry that it looks up.
pub byte_lem :
    (r byte : ℕ)
    → r < 2 ^ 16
    → byte < 256
    → crc16_byte r byte ≡ bit_xor (r % 256 * 256) (entry (bit_xor (r / 256) byte))
unfolding crc16_byte
byte_lem r byte h hb =
    let x = bit_xor (r / 256) byte in
    let (looked, small, masked) = table_lem x (xor-lt 8 (r / 256) byte (omega arith) hb) in
    let kept : (r * 2 ^ 8 % 2 ^ 16 ≡ r % 256 * 256) = omega arith in
    let fits : (entry x % 2 ^ 16 ≡ entry x) = omega arith in
    rw (masked, xor_mod 16 (r * 2 ^ 8) (entry x), kept, fits) refl

low_byte_lem :
    (r byte : ℕ)
    → r < 2 ^ 16
    → byte < 256
    → crc16_byte r byte % 256 ≡ entry (bit_xor (r / 256) byte) % 256
low_byte_lem r byte h hb =
    let v = entry (bit_xor (r / 256) byte) in
    let none_left : (r % 256 * 256 % 256 ≡ 0) = omega arith in
    ap (λ x. x % 256) (byte_lem r byte h hb)
    ∙ xor_mod 8 (r % 256 * 256) v
    ∙ ap (λ x. bit_xor x (v % 256)) none_left
    ∙ xor_comm 0 (v % 256)
    ∙ xor-zero (v % 256)

-- The low byte of a step's result tells the entry that it came from,
index-inj :
    (r s b c : ℕ)
    → r < 2 ^ 16
    → s < 2 ^ 16
    → b < 256
    → c < 256
    → crc16_byte r b % 256 ≡ crc16_byte s c % 256
    → bit_xor (r / 256) b ≡ bit_xor (s / 256) c
index-inj r s b c hr hs hb hc e =
    entry-inj (bit_xor (r / 256) b) (bit_xor (s / 256) c) (xor-lt 8 (r / 256) b (omega arith) hb)
      (xor-lt 8 (s / 256) c (omega arith) hc)
      (sym (low_byte_lem r b hr hb) ∙ e ∙ low_byte_lem s c hs hc)

-- so that no two values, and no two bytes, have the same result.
crc16_byte-inj_byte :
    (r b c : ℕ)
    → r < 2 ^ 16
    → b < 256
    → c < 256
    → crc16_byte r b % 256 ≡ crc16_byte r c % 256
    → b ≡ c
crc16_byte-inj_byte r b c hr hb hc e =
    xor_cancel b c (r / 256)
      (xor_comm b (r / 256) ∙ index-inj r r b c hr hr hb hc e ∙ xor_comm (r / 256) c)

crc16_byte-inj_crc :
    (r s b : ℕ) → r < 2 ^ 16 → s < 2 ^ 16 → b < 256 → crc16_byte r b ≡ crc16_byte s b → r ≡ s
crc16_byte-inj_crc r s b hr hs hb e =
    let index = index-inj r s b b hr hs hb hb (ap (λ x. x % 256) e) in
    let same = sym (byte_lem r b hr hb) ∙ e ∙ byte_lem s b hs hb in
    omega (
      arith,
      xor_cancel (r / 256) (s / 256) b index,
      xor_cancel (r % 256 * 256) (s % 256 * 256) (entry (bit_xor (s / 256) b))
          (sym (ap (λ x. bit_xor (r % 256 * 256) (entry x)) index) ∙ same),
    )

-- The low byte of the value before the last step tells the byte before the last.
pub two_bytes-inj :
    (r b₁ b₂ c₁ c₂ : ℕ)
    → r < 2 ^ 16
    → IsBytes (b₁ ∷ b₂ ∷ c₁ ∷ c₂ ∷ [])
    → crc16_byte (crc16_byte r b₁) b₂ ≡ crc16_byte (crc16_byte r c₁) c₂
    → b₁ ∷ b₂ ∷ [] ≡ c₁ ∷ c₂ ∷ []
two_bytes-inj r b₁ b₂ c₁ c₂ h bytes e =
    let p₁ = bytes.0 in
    let p₂ = bytes.1.0 in
    let q₁ = bytes.1.1.0 in
    let q₂ = bytes.1.1.1.0 in
    let s = crc16_byte r b₁ in
    let t = crc16_byte r c₁ in
    let hs = crc16_byte-lt r b₁ in
    let ht = crc16_byte-lt r c₁ in
    let index = index-inj s t b₂ c₂ hs ht p₂ q₂ (ap (λ x. x % 256) e) in
    let same = sym (byte_lem s b₂ hs p₂) ∙ e ∙ byte_lem t c₂ ht q₂ in
    let low : (s % 256 ≡ t % 256) = omega (
      arith,
      xor_cancel (s % 256 * 256) (t % 256 * 256) (entry (bit_xor (t / 256) c₂))
          (sym (ap (λ x. bit_xor (s % 256 * 256) (entry x)) index) ∙ same),
    ) in
    let first = crc16_byte-inj_byte r b₁ c₁ h p₁ q₁ low in
    let second =
      crc16_byte-inj_byte s b₂ c₂ hs p₂ q₂
        (ap (λ x. x % 256) (e ∙ ap (λ x. crc16_byte (crc16_byte r x) c₂) (sym first))) in
    cc (first, second)

pub remainder-inj :
    (r s : ℕ) (buffer : Bytes)
    → r < 2 ^ 16
    → s < 2 ^ 16
    → IsBytes buffer
    → remainder r buffer ≡ remainder s buffer
    → r ≡ s
unfolding remainder
remainder-inj r s [] hr hs bs e = e
remainder-inj r s (b ∷ buffer) hr hs bs e = crc16_byte-inj_crc r s b hr hs bs.0 (
    remainder-inj (crc16_byte r b) (crc16_byte s b) buffer (crc16_byte-lt r b) (crc16_byte-lt s b)
      bs.1
      (ap (λ x. remainder x buffer) (crc16_byte_lem r b hr bs.0)
        ∙ e
        ∙ ap (λ x. remainder x buffer) (sym (crc16_byte_lem s b hs bs.0))))

pub remainder-append :
    (r : ℕ) (front back : Bytes) → remainder r (front ++ back) ≡ remainder (remainder r front) back
unfolding remainder
remainder-append r [] back = refl
remainder-append r (b ∷ front) back =
    remainder-append (divide_bits 8 (bit_xor r (b * 2 ^ 8))) front back

pub remainder-lt :
    (r : ℕ) (buffer : Bytes) → r < 2 ^ 16 → IsBytes buffer → remainder r buffer < 2 ^ 16
unfolding remainder
remainder-lt r [] h bs = h
remainder-lt r (b ∷ buffer) h bs =
    rw (sym (crc16_byte_lem r b h bs.0))
      (remainder-lt (crc16_byte r b) buffer (crc16_byte-lt r b) bs.1)
