-- ===== src/Bits/Digit.antt =====
-- The binary digits of a number, and what the bit operations do to each.
use Prim.Native.Nat.{min, max, bit_or}
use native.Mathlib.Nat.{pow-suc, one-le-pow}
use hanport_data_parser.Base.{
  ℕ, zero, suc, ◌-◌, ◌/◌, ◌%◌, ◌^◌, ◌≤◌, ◌<◌, bit_and, ◌≡◌, ap, ◌∙◌, arith,
}
use hanport_data_parser.Bits.Step.{bit_and_digits, bit_or_digits}

abbrev pub digit : ℕ → ℕ → ℕ
digit zero a = a % 2
digit (suc k) a = digit k (a / 2)

pub digit-le : (k a : ℕ) → digit k a ≤ 1
digit-le zero a = omega arith
digit-le (suc k) a = digit-le k (a / 2)

pub digit-bit_and : (k a b : ℕ) → digit k (bit_and a b) ≡ min (digit k a) (digit k b)
digit-bit_and zero a b = omega (arith, bit_and_digits a b)
digit-bit_and (suc k) a b =
    let half : bit_and a b / 2 ≡ bit_and (a / 2) (b / 2) = omega (arith, bit_and_digits a b) in
    ap (digit k) half ∙ digit-bit_and k (a / 2) (b / 2)

pub digit-bit_or : (k a b : ℕ) → digit k (bit_or a b) ≡ max (digit k a) (digit k b)
digit-bit_or zero a b = omega (arith, bit_or_digits a b)
digit-bit_or (suc k) a b =
    let half : bit_or a b / 2 ≡ bit_or (a / 2) (b / 2) = omega (arith, bit_or_digits a b) in
    ap (digit k) half ∙ digit-bit_or k (a / 2) (b / 2)

-- The complement of a word of `n` bits.
pub digit_complement : (n k a : ℕ) → a < 2 ^ n → k < n → digit k (2 ^ n - 1 - a) ≡ 1 - digit k a
digit_complement zero k a h l = absurd (omega arith)
digit_complement (suc n) zero a h l = omega (arith, pow-suc 2 n, one-le-pow n 2 (omega arith))
digit_complement (suc n) (suc k) a h l =
    let half : (2 ^ suc n - 1 - a) / 2 ≡ 2 ^ n - 1 - a / 2 = omega (arith, h, pow-suc 2 n) in
    ap (digit k) half ∙ digit_complement n k (a / 2) (omega (arith, h, pow-suc 2 n)) (omega arith)

pub bit_or-lt : (n a b : ℕ) → a < 2 ^ n → b < 2 ^ n → bit_or a b < 2 ^ n
bit_or-lt zero a b h l =
    let p : a ≡ 0 = omega arith in let q : b ≡ 0 = omega arith in rw (p, q) (omega arith)
bit_or-lt (suc n) a b h l = omega (
  arith,
  pow-suc 2 n,
  bit_or_digits a b,
  bit_or-lt n (a / 2) (b / 2) (omega (arith, h, pow-suc 2 n)) (omega (arith, l, pow-suc 2 n)),
)
