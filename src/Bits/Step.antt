-- ===== src/Bits/Step.antt =====
-- One equation for the lowest digit of `bit_xor`, `bit_or` and `bit_and`: the native operations stand for
-- a recursion on binary digits with fuel, and the fuel is dropped here.
use Prim.Native.Nat.{
  min, max, bit_or, differ, digits, bit_and-bitwise, bit_or-bitwise, bit_xor-bitwise,
}
use native.Mathlib.Decide.{ℕ_discrete}
use native.Mathlib.Nat.{
  le_refl, pow-suc, one-le-pow, div-add-mod', mul-add-mod_self_right, mod-eq_of_lt, mod-lt,
}
use hanport_data_parser.Base.{
  ℕ, zero, suc, ◌+◌, ◌*◌, ◌/◌, ◌-◌, ◌^◌, ap, ◌∙◌, ◌%◌, ◌≤◌, bit_and, bit_xor, ◌≡◌, refl, ◌⊎◌, inl,
  inr, arith,
}

-- A recursion on the digits of `a` has fuel to spare from `a` on.
module _ (last : ℕ → ℕ) (join : ℕ → ℕ → ℕ) where
  spare_fuel :
      (fuel a b : ℕ) → a ≤ fuel → digits last join (suc fuel) a b ≡ digits last join fuel a b
  spare_fuel zero zero b h = refl
  spare_fuel (suc fuel) zero b h = refl
  spare_fuel zero (suc a) b h = absurd (omega arith)
  spare_fuel (suc fuel) (suc a) b h = rw (spare_fuel fuel (suc a / 2) (b / 2) (omega arith))

  least_fuel : (fuel a b : ℕ) → a ≤ fuel → digits last join fuel a b ≡ digits last join a a b
  least_fuel zero a b h = let none_left : a ≡ 0 = omega arith in rw none_left
  least_fuel (suc fuel) a b h = elim (ℕ_discrete a (suc fuel)) [
    | yes exact ↦ rw exact
    | no over ↦ spare_fuel fuel a b (omega arith) ∙ least_fuel fuel a b (omega arith)
  ]

  -- The equation of the lowest digit.
  lowest :
      (a b : ℕ)
      → digits last join (suc a) (suc a) b
        ≡ digits last join (suc a / 2) (suc a / 2) (b / 2) * 2 + join (suc a % 2) (b % 2)
  lowest a b = omega (arith, least_fuel a (suc a / 2) (b / 2) (omega arith))

digit-cases : (a : ℕ) → (a % 2 ≡ 0) ⊎ (a % 2 ≡ 1)
digit-cases a = omega arith

-- The exclusive or of two digits is their sum without the carry.
differ_digits : (a b : ℕ) → differ (a % 2) (b % 2) ≡ (a + b) % 2
differ_digits a b = elim (digit-cases a) [
  | inl p ↦ elim (digit-cases b) [
    | inl q ↦ rw (p, q) (omega arith)
    | inr q ↦ rw (p, q) (omega arith)
  ]
  | inr p ↦ elim (digit-cases b) [
    | inl q ↦ rw (p, q) (omega arith)
    | inr q ↦ rw (p, q) (omega arith)
  ]
]

bit_xor_digits : (a b : ℕ) → bit_xor a b ≡ bit_xor (a / 2) (b / 2) * 2 + differ (a % 2) (b % 2)
bit_xor_digits (suc a) b = simp bit_xor-bitwise (lowest (λ y. y) differ a b)
bit_xor_digits zero b = simp bit_xor-bitwise alone
  where
    alone : b ≡ (b / 2) * 2 + differ 0 (b % 2)
    alone = omega arith

pub bit_xor_step : (a b : ℕ) → bit_xor a b ≡ bit_xor (a / 2) (b / 2) * 2 + (a + b) % 2
bit_xor_step a b = omega (arith, bit_xor_digits a b, differ_digits a b)

pub bit_and_digits : (a b : ℕ) → bit_and a b ≡ min (a % 2) (b % 2) + 2 * bit_and (a / 2) (b / 2)
bit_and_digits (suc a) b = simp bit_and-bitwise (omega (arith, lowest (λ y. 0) min a b))
bit_and_digits zero b = simp bit_and-bitwise (omega arith)

pub bit_or_digits : (a b : ℕ) → bit_or a b ≡ max (a % 2) (b % 2) + 2 * bit_or (a / 2) (b / 2)
bit_or_digits (suc a) b = simp bit_or-bitwise (omega (arith, lowest (λ y. y) max a b))
bit_or_digits zero b = simp bit_or-bitwise (omega arith)

-- `x & y` is at most `y`.
and_within : (n a b : ℕ) → a ≤ n → bit_and a b ≤ b
and_within n zero b h = simp bit_and-bitwise (omega arith)
and_within zero (suc a) b h = absurd (omega arith)
and_within (suc n) (suc a) b h =
    omega (arith, bit_and_digits (suc a) b, and_within n (suc a / 2) (b / 2) (omega arith))

-- `x & (2 ^ k - 1)` is the remainder by 2 ^ k.
pub bit_and-ones : (k a : ℕ) → bit_and a (2 ^ k - 1) ≡ a % 2 ^ k
bit_and-ones zero a = omega (arith, and_within a a 0 (le_refl a))
bit_and-ones (suc k) a = omega (
  arith,
  halves,
  bit_and-ones k (a / 2),
  parity,
  pow-suc 2 k,
  bit_and_digits a (2 ^ suc k - 1),
  digits_of,
)
  where
    positive : 1 ≤ 2 ^ k
    positive = one-le-pow k 2 (omega arith)

    halves : bit_and (a / 2) ((2 ^ suc k - 1) / 2) ≡ bit_and (a / 2) (2 ^ k - 1)
    halves = ap (bit_and (a / 2)) (omega (arith, positive, pow-suc 2 k))

    parity : (2 ^ suc k - 1) % 2 ≡ 1
    parity = omega (arith, positive, pow-suc 2 k)

    digits_of : a % 2 ^ suc k ≡ (a / 2 % 2 ^ k) * 2 + a % 2
    digits_of =
        let q = a / 2 / 2 ^ k in
        let x = (a / 2 % 2 ^ k) * 2 + a % 2 in
        let whole : a ≡ q * 2 ^ suc k + x =
          omega (arith, div-add-mod' (a / 2) (2 ^ k), ap (λ (t : ℕ). q * t) (pow-suc 2 k)) in
        ap (λ (t : ℕ). t % 2 ^ suc k) whole
        ∙ mul-add-mod_self_right q (2 ^ suc k) x
        ∙ mod-eq_of_lt (omega (arith, mod-lt (a / 2) {m = 2 ^ k} positive, pow-suc 2 k))

-- `x & 1` is the lowest digit.
pub bit_and-one : (a : ℕ) → bit_and a 1 ≡ a % 2
bit_and-one a = bit_and-ones 1 a
