-- ===== src/Base/Numerals.antt =====
-- `std::stoi(s, nullptr, base)` for the bases 10 and 16: leading white space, a sign, the prefix
-- `0x` of base 16 where a digit follows it, then the longest run of digits. `none` stands for both
-- exceptions: no digit (`std::invalid_argument`), and a value beyond `int` (`std::out_of_range`).
use hanport_data_parser.Base.Booleans.{ltb, leb, ◌==◌, if◌then◌else◌}
use hanport_data_parser.Base.Bytes.{Bytes}
use hanport_data_parser.Base.Int.{ℤ, pos, negsuc, fits_int32}
use Prim.Native.Nat.{ℕ, zero, suc, ◌+◌, ◌-◌, ◌*◌}
use mathlib.Core.Path.{◌≡◌, refl}
use mathlib.Core.Bool.{Bool, ◌&&◌, ◌||◌}
use mathlib.Core.List.{[], ◌∷◌}
use mathlib.Core.Option.{Option, none, some}

-- `std::isspace` in the "C" locale.
unfoldable pub is_space : ℕ → Bool
is_space c = c == 32 || (leb 9 c && leb c 13)

unfoldable pub skip_spaces : Bytes → Bytes
skip_spaces [] = []
skip_spaces (c ∷ s) = let rest = skip_spaces s in if is_space c then rest else c ∷ s

-- The value of a digit or a letter; letters count on from 10 in either case.
unfoldable pub digit_value : ℕ → Option ℕ
digit_value c =
    if leb b'0' c && leb c b'9'
    then some (c - b'0')
    else if leb b'a' c && leb c b'z'
    then some (c - b'a' + 10)
    else if leb b'A' c && leb c b'Z'
    then some (c - b'A' + 10)
    else none

unfoldable pub digit_in : ℕ → ℕ → Option ℕ
digit_in base c = elim (digit_value c) [
  | none ↦ none
  | some d ↦ if ltb d base then some d else none
]

-- The value of the leading digits, on top of `acc`.
unfoldable pub read_digits : ℕ → ℕ → Bytes → ℕ
read_digits base acc [] = acc
read_digits base acc (c ∷ s) = elim (digit_in base c) [
  | none ↦ acc
  | some d ↦ read_digits base (acc * base + d) s
]

-- The digits of a number: at least one, or the conversion fails.
unfoldable pub read_number : ℕ → Bytes → Option ℕ
read_number base [] = none
read_number base (c ∷ s) = elim (digit_in base c) [
  | none ↦ none
  | some d ↦ some (read_digits base d s)
]

-- The prefix `0x` is passed over in base 16 only if a digit follows.
unfoldable pub read_prefixed : ℕ → Bytes → Option ℕ
read_prefixed base (z ∷ x ∷ s) =
    if base == 16 && z == b'0' && (x == b'x' || x == b'X')
    then (elim (read_number base s) [ none ↦ some 0 | some n ↦ some n ])
    else read_number base (z ∷ x ∷ s)
read_prefixed base s = read_number base s

unfoldable pub negate : ℕ → ℤ
negate zero = pos 0
negate (suc n) = negsuc n

unfoldable pub in_range : ℤ → Option ℤ
in_range i = if fits_int32 i then some i else none

unfoldable pub read_signed : ℕ → Bytes → Option ℤ
read_signed base [] = none
read_signed base (c ∷ s) =
    if c == b'-'
    then (elim (read_prefixed base s) [ none ↦ none | some n ↦ in_range (negate n) ])
    else (elim (read_prefixed base (if c == b'+' then s else c ∷ s)) [
      | none ↦ none
      | some n ↦ in_range (pos n)
    ])

unfoldable pub stoi : ℕ → Bytes → Option ℤ
unfolding is_space skip_spaces digit_value digit_in read_digits read_number read_prefixed negate
    in_range read_signed
stoi base s = read_signed base (skip_spaces s)

-- The conversion with its parts shut.
pub stoi_lem : (base : ℕ) (s : Bytes) → stoi base s ≡ read_signed base (skip_spaces s)
unfolding stoi
stoi_lem base s = refl
