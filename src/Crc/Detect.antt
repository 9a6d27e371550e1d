-- ===== src/Crc/Detect.antt =====
-- What the checksum of src/commons/CRC_16.cpp detects.
use short_message.Prelude.{
  ℕ, ◌*◌, ◌/◌, ◌%◌, ◌^◌, ◌<◌, ◌≡◌, ◌≢◌, refl, sym, ap, ◌∙◌, arith, [], ◌∷◌, ◌++◌, append-nil, Bytes,
  length,
}
use Prim.Native.Nat.{bit_xor}
use short_message.Prelude.Int.{pos}
use short_message.Memory.{htons, htons-htons, le16}
use short_message.Machine.{ok}
use short_message.Crc.{crc16_table, crc16_byte, crc_16}
use short_message.Crc.Xor.{xor_self, xor-zero}
use short_message.Crc.Division.{
  remainder, IsBytes, entry, crc16_byte-lt, crc16_byte_lem, crc_16-eq-remainder, divide_bits,
}
use short_message.Crc.Steps.{two_bytes-inj, remainder-inj, remainder-append, remainder-lt, byte_lem}

All-front : (front back : Bytes) → IsBytes (front ++ back) → IsBytes front
All-front [] back h = tt
All-front (b ∷ front) back h = (h.0, All-front front back h.1)

All-back : (front back : Bytes) → IsBytes (front ++ back) → IsBytes back
All-back [] back h = h
All-back (b ∷ front) back h = All-back front back h.1

checksum :
    (crc : ℕ) (buffer : Bytes)
    → crc < 2 ^ 16
    → IsBytes buffer
    → crc_16 crc buffer (pos (length buffer)) ≡ ok (htons (remainder crc buffer))
checksum crc buffer h bs =
    ap (λ m. crc_16 crc m (pos (length buffer))) (sym (append-nil buffer))
    ∙ crc_16-eq-remainder crc buffer [] h bs

ok-inj : {v w : ℕ} → ok v ≡ ok w → v ≡ w
ok-inj e = cc

htons-inj : (v w : ℕ) → v < 2 ^ 16 → w < 2 ^ 16 → htons v ≡ htons w → v ≡ w
htons-inj v w p q e = sym (htons-htons v p) ∙ ap htons e ∙ htons-htons w q

All-append : (front back : Bytes) → IsBytes front → IsBytes back → IsBytes (front ++ back)
All-append [] back h k = k
All-append (b ∷ front) back h k = (h.0, All-append front back h.1 k)

after_two :
    (r b₁ b₂ : ℕ) (back : Bytes)
    → r < 2 ^ 16
    → b₁ < 256
    → b₂ < 256
    → remainder r (b₁ ∷ b₂ ∷ back) ≡ remainder (crc16_byte (crc16_byte r b₁) b₂) back
unfolding remainder
after_two r b₁ b₂ back h p q =
    let second = crc16_byte_lem (crc16_byte r b₁) b₂ (crc16_byte-lt r b₁) q in
    sym
      (ap (λ x. remainder (divide_bits 8 (bit_xor x (b₂ * 2 ^ 8))) back) (crc16_byte_lem r b₁ h p))
    ∙ sym (ap (λ x. remainder x back) second)

-- Whatever changes in two neighbouring bytes of a buffer, and nowhere else, changes the checksum.
pub crc_16-Detects :
    (crc : ℕ) (front back : Bytes) (b₁ b₂ c₁ c₂ : ℕ)
    → crc < 2 ^ 16
    → IsBytes (front ++ (b₁ ∷ b₂ ∷ back))
    → IsBytes (c₁ ∷ c₂ ∷ [])
    → b₁ ∷ b₂ ∷ [] ≢ c₁ ∷ c₂ ∷ []
    → crc_16 crc (front ++ (b₁ ∷ b₂ ∷ back)) (pos (length (front ++ (b₁ ∷ b₂ ∷ back))))
      ≢ crc_16 crc (front ++ (c₁ ∷ c₂ ∷ back)) (pos (length (front ++ (c₁ ∷ c₂ ∷ back))))
crc_16-Detects crc front back b₁ b₂ c₁ c₂ h bs cs changed e =
    let hf = All-front front (b₁ ∷ b₂ ∷ back) bs in
    let hb = All-back front (b₁ ∷ b₂ ∷ back) bs in
    let bs' = All-append front (c₁ ∷ c₂ ∷ back) hf (cs.0, (cs.1.0, hb.1.1)) in
    let r = remainder crc front in
    let hr = remainder-lt crc front h hf in
    let b = front ++ (b₁ ∷ b₂ ∷ back) in
    let c = front ++ (c₁ ∷ c₂ ∷ back) in
    let sums : (htons (remainder crc b) ≡ htons (remainder crc c)) =
      ok-inj (sym (checksum crc b h bs) ∙ e ∙ checksum crc c h bs') in
    let remainders = htons-inj _ _ (remainder-lt crc b h bs) (remainder-lt crc c h bs') sums in
    let middle =
      sym (after_two r b₁ b₂ back hr hb.0 hb.1.0)
      ∙ sym (remainder-append crc front (b₁ ∷ b₂ ∷ back))
      ∙ remainders
      ∙ remainder-append crc front (c₁ ∷ c₂ ∷ back)
      ∙ after_two r c₁ c₂ back hr cs.0 cs.1.0 in
    changed (
      two_bytes-inj r b₁ b₂ c₁ c₂ hr (hb.0, (hb.1.0, (cs.0, (cs.1.0, tt))))
        (remainder-inj _ _ back (crc16_byte-lt _ b₂) (crc16_byte-lt _ c₂) hb.1.1 middle))

-- A byte that is the value's own high byte leaves only the low one.
own_byte : (v : ℕ) → v < 2 ^ 16 → crc16_byte v (v / 256) ≡ v % 256 * 256
unfolding crc16_table
own_byte v h =
    byte_lem v (v / 256) h (omega arith)
    ∙ ap (λ x. bit_xor (v % 256 * 256) (entry x)) (xor_self (v / 256))
    ∙ xor-zero (v % 256 * 256)

own_bytes : (v : ℕ) → v < 2 ^ 16 → crc16_byte (crc16_byte v (v / 256)) (v % 256) ≡ 0
own_bytes v h =
    let high : (v % 256 ≡ v % 256 * 256 / 256) = omega arith in
    ap (λ x. crc16_byte x (v % 256)) (own_byte v h)
    ∙ ap (λ x. crc16_byte (v % 256 * 256) x) high
    ∙ own_byte (v % 256 * 256) (omega arith)
    ∙ omega arith

remainder-nil : (r : ℕ) → remainder r [] ≡ r
unfolding remainder
remainder-nil r = refl

-- A receiver that checks the whole: where the checksum of a buffer is stored behind it, as the code
-- stores an unsigned short, the checksum of both is 0.
pub crc_16_self :
    (crc sum : ℕ) (buffer : Bytes)
    → crc < 2 ^ 16
    → IsBytes buffer
    → crc_16 crc buffer (pos (length buffer)) ≡ ok sum
    → crc_16 crc (buffer ++ le16 sum) (pos (length (buffer ++ le16 sum))) ≡ ok 0
crc_16_self crc sum buffer h bs e =
    let v = remainder crc buffer in
    let hv = remainder-lt crc buffer h bs in
    let stored : (sum ≡ htons v) = ok-inj (sym e ∙ checksum crc buffer h bs) in
    let first : (sum % 256 ≡ v / 256) = omega arith in
    let second : (sum / 256 % 256 ≡ v % 256) = omega arith in
    let whole = All-append buffer (le16 sum) bs (omega arith, (omega arith, tt)) in
    checksum crc (buffer ++ le16 sum) h whole
    ∙ ap (λ x. ok (htons x))
        (remainder-append crc buffer (le16 sum)
          ∙ after_two v (sum % 256) (sum / 256 % 256) [] hv (omega arith) (omega arith)
          ∙ remainder-nil _
          ∙ ap (λ x. crc16_byte (crc16_byte v x) (sum / 256 % 256)) first
          ∙ ap (λ x. crc16_byte (crc16_byte v (v / 256)) x) second
          ∙ own_bytes v hv)
