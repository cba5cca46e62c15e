-- ===== src/Validator/Crc/BitSerial.antt =====
-- The checksum against its textbook form: a shift register with feedback that takes the bits of
-- the text one by one, the lowest bit of a byte first. The code instead puts a whole byte into the
-- register and then shifts eight times.
use hanport_data_parser.Base.{
  ℕ, zero, suc, ◌+◌, ◌/◌, ◌%◌, ◌^◌, ◌<◌, List, [], ◌∷◌, ◌++◌, ◌≡◌, refl, sym, ap, ◌∙◌, inl, inr,
  bit_xor, ◌==◌, if◌then◌else◌, arith,
}
use native.Mathlib.Nat.{pow-suc}
use hanport_data_parser.Base.Bytes.{Bytes, IsBytes}
use hanport_data_parser.Bits.{bit_xor_comm, bit_xor_assoc, bit_xor-zero}
use hanport_data_parser.Bits.Xor.{bit_xor-half, bit_xor-parity}
use hanport_data_parser.Validator.{crc_round, crc_rounds, crc_from}
use hanport_data_parser.Validator.Crc.{crc_round-even, crc_round-odd, digit-cases}

-- One bit enters: the register shifts, and the polynomial is fed back if the bit that leaves
-- differs from the one that enters.
abbrev pub shift_bit : ℕ → ℕ → ℕ
shift_bit crc bit = if (crc + bit) % 2 == 0 then crc / 2 else bit_xor (crc / 2) 0xA001

abbrev pub shift_in : ℕ → List ℕ → ℕ
shift_in crc [] = crc
shift_in crc (b ∷ bits) = shift_in (shift_bit crc b) bits

-- The `n` lowest bits of a number, the lowest first.
abbrev pub low_bits : ℕ → ℕ → List ℕ
low_bits zero x = []
low_bits (suc n) x = x % 2 ∷ low_bits n (x / 2)

-- The bits of a text in the order of transmission.
abbrev pub bit_stream : Bytes → List ℕ
bit_stream [] = []
bit_stream (b ∷ bs) = low_bits 8 b ++ bit_stream bs

swap_last : (a b c : ℕ) → bit_xor (bit_xor a b) c ≡ bit_xor (bit_xor a c) b
swap_last a b c =
    bit_xor_assoc a b c ∙ ap (bit_xor a) (bit_xor_comm b c) ∙ sym (bit_xor_assoc a c b)

-- A round on `c ^ x` takes in the lowest bit of `x` and leaves the others pending.
crc_round-xor : (c x : ℕ) → crc_round (bit_xor c x) ≡ bit_xor (shift_bit c (x % 2)) (x / 2)
crc_round-xor c x = elim (digit-cases (bit_xor c x)) [
  | inl p ↦
      let e : (c + x % 2) % 2 ≡ 0 = omega (arith, bit_xor-parity c x) in
      rw e (crc_round-even (bit_xor c x) p ∙ bit_xor-half c x)
  | inr p ↦
      let e : (c + x % 2) % 2 ≡ 1 = omega (arith, bit_xor-parity c x) in
      rw e (
        crc_round-odd (bit_xor c x) p
        ∙ ap (λ (t : ℕ). bit_xor t 0xA001) (bit_xor-half c x)
        ∙ swap_last (c / 2) (x / 2) 0xA001)
]

crc_rounds-low_bits :
    (n c x : ℕ) → x < 2 ^ n → crc_rounds n (bit_xor c x) ≡ shift_in c (low_bits n x)
unfolding crc_rounds
crc_rounds-low_bits zero c x h = let e : x ≡ 0 = omega arith in ap (bit_xor c) e ∙ bit_xor-zero c
crc_rounds-low_bits (suc n) c x h =
    ap (crc_rounds n) (crc_round-xor c x)
    ∙ crc_rounds-low_bits n (shift_bit c (x % 2)) (x / 2) (omega (arith, pow-suc 2 n))

shift_in-append : (xs ys : List ℕ) (c : ℕ) → shift_in c (xs ++ ys) ≡ shift_in (shift_in c xs) ys
shift_in-append [] ys c = refl
shift_in-append (x ∷ xs) ys c = shift_in-append xs ys (shift_bit c x)

-- On every text of bytes the checksum is the register after the text's bits were shifted in.
pub crc_from-bit_stream :
    (bs : Bytes) (c : ℕ) → IsBytes bs → crc_from c bs ≡ shift_in c (bit_stream bs)
unfolding crc_from
crc_from-bit_stream [] c h = refl
crc_from-bit_stream (b ∷ bs) c h =
    crc_from-bit_stream bs (crc_rounds 8 (bit_xor c b)) h.1
    ∙ ap (λ (t : ℕ). shift_in t (bit_stream bs)) (crc_rounds-low_bits 8 c b (omega arith))
    ∙ sym (shift_in-append (low_bits 8 b) (bit_stream bs) c)
