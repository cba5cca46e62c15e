-- ===== src/Floats.antt =====
-- The `float` values of the program, as a parameter: antt has no floating-point numbers. The record
-- names the operations that the program makes on them; what it relies on is stated in `IsLawful`.
use hanport_data_parser.Base.{ℕ, ◌^◌, ◌<◌, Option}
use hanport_data_parser.Base.Bytes.{Bytes}
use hanport_data_parser.Base.Int.{ℤ}

pub record Floats : Type 1 where
  pub Float : Type 0
  -- the value of an `int`, as by an implicit conversion
  pub of_int : ℤ → Float
  pub mul : Float → Float → Float
  -- `static_cast<int>(f)`; any value where C++ leaves the result undefined
  pub to_int : Float → ℤ
  -- the 32 bits that `std::memcpy` copies
  pub bits : Float → ℕ
  -- `std::stof`; `none` is an exception
  pub stof : Bytes → Option Float
  -- `std::fixed << std::setprecision(2)`
  pub fixed_2 : Float → Bytes

-- A `float` has 32 bits.
pub record IsLawful (F : Floats) : Type 0 where
  pub bits-lt : (f : F.Float) → F.bits f < 2 ^ 32
