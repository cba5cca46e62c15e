-- ===== src/Modbus/Words.antt =====
-- The two registers of a value, and the value that a client puts together from them.
use hanport_data_parser.Base.{
  ℕ, ◌+◌, ◌-◌, ◌*◌, ◌/◌, ◌%◌, ◌^◌, [], ◌∷◌, ◌≡◌, refl, bit_and, ltb, if◌then◌else◌, arith,
}
use hanport_data_parser.Base.Int.{ℤ, pos, negsuc, IsInt32, to_u16, shift_right}
use hanport_data_parser.Bits.Step.{bit_and-ones}
use hanport_data_parser.Floats.{Floats, IsLawful}
use hanport_data_parser.Modbus.{int_to_regs, float_to_regs}

-- Two registers as an unsigned 32-bit number, the first the low word.
abbrev pub word_of : ℕ → ℕ → ℕ
word_of low high = high * 2 ^ 16 + low

-- The same as a two's complement `int`.
abbrev pub int_of : ℕ → ℕ → ℤ
int_of low high =
    if ltb (word_of low high) (2 ^ 31)
    then pos (word_of low high)
    else negsuc (2 ^ 32 - 1 - word_of low high)

-- A client reads back every `int` from its two registers.
pub int_to_regs-int_of :
    (i : ℤ)
    → IsInt32 i
    → (low : ℕ) × (high : ℕ) × (int_to_regs i ≡ low ∷ high ∷ []) × (int_of low high ≡ i)
unfolding int_to_regs to_u16 shift_right
int_to_regs-int_of (pos n) h = (n % 2 ^ 16, n / 2 ^ 16 % 2 ^ 16, refl, ground arith)
int_to_regs-int_of (negsuc n) h =
    (2 ^ 16 - 1 - n % 2 ^ 16, 2 ^ 16 - 1 - n / 2 ^ 16 % 2 ^ 16, refl, ground arith)

module _ (F : Floats) (L : IsLawful F) where
  -- A client reads back the 32 bits of every `float` from its two registers.
  pub float_to_regs-word_of :
      (f : F.Float)
      → (low : ℕ) × (high : ℕ) × (float_to_regs F f ≡ low ∷ high ∷ [])
        × (word_of low high ≡ F.bits f)
  unfolding float_to_regs
  float_to_regs-word_of f = (
    bit_and (F.bits f) 0xFFFF % 2 ^ 16,
    bit_and (F.bits f / 2 ^ 16) 0xFFFF % 2 ^ 16,
    refl,
    omega (arith, bit_and-ones 16 (F.bits f), bit_and-ones 16 (F.bits f / 2 ^ 16), L.bits-lt f),
  )
