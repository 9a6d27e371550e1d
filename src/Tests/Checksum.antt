-- ===== src/Tests/Checksum.antt =====
-- Checksums of short buffers.
use short_message.Prelude.{◌≡◌, ◌≢◌, refl, [], ◌∷◌, arith, Bytes}
use short_message.Prelude.Int.{pos}
use short_message.Memory.{htons, text}
use short_message.Machine.{ok}
use short_message.Crc.{crc_16, crc_bytes, crc16_byte, crc16_table}
use short_message.Crc.Division.{remainder, crc_16-eq-remainder}
use short_message.Crc.Detect.{crc_16-Detects, crc_16_self}

abbrev digits : Bytes
digits = text "123456789"

-- The published check value of this polynomial, 0xfee8, with its bytes exchanged.
check_value : crc_16 0 digits (pos 9) ≡ ok 0xe8fe
unfolding crc_16 crc_bytes crc16_byte crc16_table
check_value = refl

crc_16-eq-remainder_example :
    crc_16 0xffff (7 ∷ 1 ∷ 2 ∷ []) (pos 2) ≡ ok (htons (remainder 0xffff (7 ∷ 1 ∷ [])))
crc_16-eq-remainder_example =
    crc_16-eq-remainder 0xffff (7 ∷ 1 ∷ []) (2 ∷ []) (omega arith) (omega arith, (omega arith, tt))

crc_16-Detects_example :
    crc_16 0 (7 ∷ 1 ∷ 2 ∷ 9 ∷ []) (pos 4) ≢ crc_16 0 (7 ∷ 1 ∷ 3 ∷ 9 ∷ []) (pos 4)
crc_16-Detects_example =
    crc_16-Detects 0 (7 ∷ []) (9 ∷ []) 1 2 1 3 (omega arith) (omega arith) (omega arith) (λ e. cc e)

crc_16_self_example : crc_16 0 (7 ∷ 1 ∷ 0x12 ∷ 0x6 ∷ []) (pos 4) ≡ ok 0
unfolding crc_16 crc_bytes crc16_byte crc16_table
crc_16_self_example =
    crc_16_self 0 0x612 (7 ∷ 1 ∷ []) (omega arith) (omega arith, (omega arith, tt)) refl
