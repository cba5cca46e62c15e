-- ===== src/Validator/Crc/Detection.antt =====
-- What the checksum detects.
use hanport_data_parser.Base.{ℕ, ◌∷◌, ◌++◌, ◌≡◌, sym, ◌∙◌, ◌≢◌, bit_xor, arith}
use hanport_data_parser.Base.Bytes.{Bytes, IsByte, IsBytes}
use hanport_data_parser.Bits.{bit_xor_comm, bit_xor-lt}
use hanport_data_parser.Validator.{crc_from}
use hanport_data_parser.Validator.Crc.{
  IsWord, bit_xor_cancel, crc_rounds_injective, crc_byte, crc_byte-IsWord, crc_from-IsWord,
  crc_from-append, crc_from_injective,
}

crc_byte_injective :
    (c x y : ℕ) → IsWord c → IsByte x → IsByte y → crc_byte c x ≡ crc_byte c y → x ≡ y
crc_byte_injective c x y w hx hy e = bit_xor_cancel x y c (
    bit_xor_comm x c
    ∙ crc_rounds_injective 8 (bit_xor c x) (bit_xor c y) (bit_xor-lt 16 c x w (omega arith))
        (bit_xor-lt 16 c y w (omega arith)) e
    ∙ bit_xor_comm c y)

-- The checksum detects every change of one byte, wherever it stands: two texts of bytes that
-- differ in exactly one place have different checksums.
pub crc_from-replace_ne :
    (before after : Bytes) (x y : ℕ)
    → IsBytes before
    → IsBytes after
    → IsByte x
    → IsByte y
    → x ≢ y
    → crc_from 0 (before ++ x ∷ after) ≢ crc_from 0 (before ++ y ∷ after)
unfolding crc_from
crc_from-replace_ne before after x y hb ha hx hy ne e =
    let c = crc_from 0 before in
    let w : IsWord c = crc_from-IsWord before 0 hb (omega arith) in
    ne (
      crc_byte_injective c x y w hx hy (
        crc_from_injective after (crc_byte c x) (crc_byte c y) ha (crc_byte-IsWord c x w hx)
          (crc_byte-IsWord c y w hy)
          (sym (crc_from-append before (x ∷ after) 0) ∙ e ∙ crc_from-append before (y ∷ after) 0)))
