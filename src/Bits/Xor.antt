-- ===== src/Bits/Xor.antt =====
-- The laws of `bit_xor`, by recursion on a bound of the arguments.
use Prim.Native.Nat.{bit_xor-bitwise}
use native.Mathlib.Nat.{le_refl, pow-suc}
use hanport_data_parser.Base.{ℕ, zero, suc, ◌+◌, ◌/◌, ◌%◌, ◌^◌, ◌≤◌, ◌<◌, bit_xor, ◌≡◌, ◌∙◌, arith}
use hanport_data_parser.Bits.Step.{bit_xor_step}

-- Both digits of the sum without the carry, so that `omega` reads a nested `bit_xor`.
pub bit_xor-half : (a b : ℕ) → bit_xor a b / 2 ≡ bit_xor (a / 2) (b / 2)
bit_xor-half a b = omega (arith, bit_xor_step a b)

pub bit_xor-parity : (a b : ℕ) → bit_xor a b % 2 ≡ (a + b) % 2
bit_xor-parity a b = omega (arith, bit_xor_step a b)

comm_within : (n a b : ℕ) → a + b ≤ n → bit_xor a b ≡ bit_xor b a
comm_within zero a b h = let p : a ≡ 0 = omega arith in let q : b ≡ 0 = omega arith in rw (p, q)
comm_within (suc n) a b h =
    omega (arith, bit_xor_step a b, bit_xor_step b a, comm_within n (a / 2) (b / 2) (omega arith))

pub bit_xor_comm : (a b : ℕ) → bit_xor a b ≡ bit_xor b a
bit_xor_comm a b = comm_within (a + b) a b (le_refl _)

assoc_within : (n a b c : ℕ) → a + b + c ≤ n → bit_xor (bit_xor a b) c ≡ bit_xor a (bit_xor b c)
assoc_within zero a b c h =
    let p : a ≡ 0 = omega arith in
    let q : b ≡ 0 = omega arith in let r : c ≡ 0 = omega arith in rw (p, q, r)
assoc_within (suc n) a b c h =
    let upper : bit_xor (bit_xor a b / 2) (c / 2) ≡ bit_xor (a / 2) (bit_xor b c / 2) =
      rw (bit_xor-half a b, bit_xor-half b c)
        (assoc_within n (a / 2) (b / 2) (c / 2) (omega arith)) in
    omega (
      arith,
      upper,
      bit_xor_step (bit_xor a b) c,
      bit_xor_step a (bit_xor b c),
      bit_xor-parity a b,
      bit_xor-parity b c,
    )

pub bit_xor_assoc : (a b c : ℕ) → bit_xor (bit_xor a b) c ≡ bit_xor a (bit_xor b c)
bit_xor_assoc a b c = assoc_within (a + b + c) a b c (le_refl _)

pub bit_xor-zero : (a : ℕ) → bit_xor a 0 ≡ a
bit_xor-zero a = bit_xor_comm a 0 ∙ bit_xor-bitwise 0 a

self_within : (n a : ℕ) → a ≤ n → bit_xor a a ≡ 0
self_within zero a h = let p : a ≡ 0 = omega arith in rw p
self_within (suc n) a h = omega (arith, bit_xor_step a a, self_within n (a / 2) (omega arith))

pub bit_xor_self : (a : ℕ) → bit_xor a a ≡ 0
bit_xor_self a = self_within a a (le_refl _)

-- The exclusive or of two words of `k` bits has `k` bits.
pub bit_xor-lt : (k a b : ℕ) → a < 2 ^ k → b < 2 ^ k → bit_xor a b < 2 ^ k
bit_xor-lt zero a b p q =
    let x : a ≡ 0 = omega arith in let y : b ≡ 0 = omega arith in rw (x, y) (omega arith)
bit_xor-lt (suc k) a b p q = omega (
  arith,
  pow-suc 2 k,
  bit_xor_step a b,
  bit_xor-lt k (a / 2) (b / 2) (omega (arith, pow-suc 2 k)) (omega (arith, pow-suc 2 k)),
)

-- A top bit that only one of them has stays.
pub bit_xor-top : (k a b : ℕ) → a < 2 ^ k → b < 2 ^ k → bit_xor a (2 ^ k + b) ≡ 2 ^ k + bit_xor a b
bit_xor-top zero a b p q = let x : a ≡ 0 = omega arith in let y : b ≡ 0 = omega arith in rw (x, y)
bit_xor-top (suc k) a b p q =
    let halves : (2 ^ suc k + b) / 2 ≡ 2 ^ k + b / 2 = omega (arith, pow-suc 2 k) in
    let upper : bit_xor (a / 2) ((2 ^ suc k + b) / 2) ≡ 2 ^ k + bit_xor (a / 2) (b / 2) =
      rw halves
        (bit_xor-top k (a / 2) (b / 2) (omega (arith, pow-suc 2 k)) (omega (arith, pow-suc 2 k))) in
    omega (arith, upper, pow-suc 2 k, bit_xor_step a (2 ^ suc k + b), bit_xor_step a b)
