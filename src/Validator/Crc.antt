-- ===== src/Validator/Crc.antt =====
-- The checksum: its rounds as shifts of a register, and what the register can hold.
pub mod BitSerial
pub mod Detection
use native.Mathlib.Nat.{ℕ_set}
use hanport_data_parser.Base.{
  ℕ, zero, suc, ◌+◌, ◌*◌, ◌/◌, ◌%◌, ◌^◌, ◌≤◌, ◌<◌, Bool, true, false, List, [], ◌∷◌, ◌++◌, ◌≡◌,
  refl, sym, ap, ◌∙◌, ◌⊎◌, inl, inr, bit_and, bit_xor, ◌==◌, if◌then◌else◌, arith, Bool-cases,
}
use hanport_data_parser.Base.Bytes.{Bytes, IsByte, IsBytes}
use hanport_data_parser.Bits.{
  bit_xor_step, bit_and-one, bit_xor_comm, bit_xor_assoc, bit_xor-zero, bit_xor_self, bit_xor-lt,
  bit_xor-top,
}
use hanport_data_parser.Validator.{crc_round, crc_rounds, crc_from}

abbrev pub IsWord : ℕ → Type 0
IsWord c = c < 2 ^ 16

-- A round by the parity of the register.
pub crc_round-even : (c : ℕ) → c % 2 ≡ 0 → crc_round c ≡ c / 2
unfolding crc_round
crc_round-even c h = ground (arith, bit_and-one c)

pub crc_round-odd : (c : ℕ) → c % 2 ≡ 1 → crc_round c ≡ bit_xor (c / 2) 0xA001
unfolding crc_round
crc_round-odd c h = ground (arith, bit_and-one c)

pub digit-cases : (a : ℕ) → (a % 2 ≡ 0) ⊎ (a % 2 ≡ 1)
digit-cases a = omega arith

-- The feedback reaches the top bit, so a result tells which branch was taken.
feedback_high : (x : ℕ) → x < 2 ^ 15 → 2 ^ 15 ≤ bit_xor x 0xA001
feedback_high x h = omega (arith, bit_xor-top 15 x 0x2001 h (omega arith))

pub crc_round-IsWord : (c : ℕ) → IsWord c → IsWord (crc_round c)
unfolding crc_round
crc_round-IsWord c h = ground (arith, bit_xor-lt 16 (c / 2) 0xA001 (omega arith) (omega arith))

pub crc_rounds-IsWord : (j c : ℕ) → IsWord c → IsWord (crc_rounds j c)
unfolding crc_rounds
crc_rounds-IsWord zero c h = h
crc_rounds-IsWord (suc j) c h = crc_rounds-IsWord j (crc_round c) (crc_round-IsWord c h)

-- `x ^ m` determines `x`.
pub bit_xor_cancel : (a b m : ℕ) → bit_xor a m ≡ bit_xor b m → a ≡ b
bit_xor_cancel a b m e = sym (undo a) ∙ ap (λ (t : ℕ). bit_xor t m) e ∙ undo b
  where
    undo : (t : ℕ) → bit_xor (bit_xor t m) m ≡ t
    undo t = bit_xor_assoc t m m ∙ ap (bit_xor t) (bit_xor_self m) ∙ bit_xor-zero t

-- Different registers stay different in a round.
pub crc_round_injective : (a b : ℕ) → IsWord a → IsWord b → crc_round a ≡ crc_round b → a ≡ b
crc_round_injective a b ha hb e = elim (digit-cases a) [
  | inl p ↦ elim (digit-cases b) [
    | inl q ↦ omega (arith, crc_round-even a p, crc_round-even b q)
    | inr q ↦
        absurd (
          omega (arith, crc_round-even a p, crc_round-odd b q, feedback_high (b / 2) (omega arith)))
  ]
  | inr p ↦ elim (digit-cases b) [
    | inl q ↦
        absurd (
          omega (arith, crc_round-odd a p, crc_round-even b q, feedback_high (a / 2) (omega arith)))
    | inr q ↦ omega (
      arith,
      bit_xor_cancel (a / 2) (b / 2) 0xA001 (sym (crc_round-odd a p) ∙ e ∙ crc_round-odd b q),
    )
  ]
]

pub crc_rounds_injective :
    (j a b : ℕ) → IsWord a → IsWord b → crc_rounds j a ≡ crc_rounds j b → a ≡ b
unfolding crc_rounds
crc_rounds_injective zero a b ha hb e = e
crc_rounds_injective (suc j) a b ha hb e = crc_round_injective a b ha hb (
    crc_rounds_injective j (crc_round a) (crc_round b) (crc_round-IsWord a ha)
      (crc_round-IsWord b hb) e)

-- One byte goes into the register.
abbrev pub crc_byte : ℕ → ℕ → ℕ
crc_byte crc b = crc_rounds 8 (bit_xor crc b)

pub crc_byte-IsWord : (c b : ℕ) → IsWord c → IsByte b → IsWord (crc_byte c b)
crc_byte-IsWord c b hc hb = crc_rounds-IsWord 8 (bit_xor c b) (bit_xor-lt 16 c b hc (omega arith))

pub crc_from-IsWord : (bs : Bytes) (c : ℕ) → IsBytes bs → IsWord c → IsWord (crc_from c bs)
unfolding crc_from
crc_from-IsWord [] c h w = w
crc_from-IsWord (b ∷ bs) c h w = crc_from-IsWord bs (crc_byte c b) h.1 (crc_byte-IsWord c b w h.0)

pub crc_from-append : (bs ds : Bytes) (c : ℕ) → crc_from c (bs ++ ds) ≡ crc_from (crc_from c bs) ds
unfolding crc_from
crc_from-append [] ds c = refl
crc_from-append (b ∷ bs) ds c = crc_from-append bs ds (crc_byte c b)

-- The register before a text is determined by the register behind it.
pub crc_from_injective :
    (bs : Bytes) (a b : ℕ)
    → IsBytes bs
    → IsWord a
    → IsWord b
    → crc_from a bs ≡ crc_from b bs
    → a ≡ b
unfolding crc_from
crc_from_injective [] a b h ha hb e = e
crc_from_injective (x ∷ bs) a b h ha hb e = bit_xor_cancel a b x (
    crc_rounds_injective 8 (bit_xor a x) (bit_xor b x) (bit_xor-lt 16 a x ha (omega arith))
      (bit_xor-lt 16 b x hb (omega arith))
      (crc_from_injective bs (crc_byte a x) (crc_byte b x) h.1 (crc_byte-IsWord a x ha h.0)
        (crc_byte-IsWord b x hb h.0) e))
