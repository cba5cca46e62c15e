-- ===== src/Tests/Floats.antt =====
-- A stand-in for `float`: whole numbers, of which 32 bits are kept. It shows that what the theorems
-- assume of `float` can be met, and lets the tests run.
use Prim.Native.Nat.{ℕ, ◌*◌, ◌%◌, ◌^◌}
use hanport_data_parser.Base.{[], ◌∷◌, arith}
use hanport_data_parser.Base.Int.{ℤ, pos, negsuc}
use hanport_data_parser.Base.Numerals.{read_number}
use hanport_data_parser.Floats.{Floats, IsLawful}

abbrev value_of : ℤ → ℕ
value_of (pos n) = n
value_of (negsuc n) = 0

abbrev pub whole : Floats
whole = record {
  Float = ℕ;
  of_int = value_of;
  mul = λ a b. a * b;
  to_int = λ a. pos (a % 2 ^ 31);
  bits = λ a. a % 2 ^ 32;
  stof = read_number 10;
  fixed_2 = λ a. a ∷ [];
}

abbrev pub whole-IsLawful : IsLawful whole
whole-IsLawful = record { bits-lt = λ a. omega arith }
