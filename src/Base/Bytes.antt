-- ===== src/Base/Bytes.antt =====
-- Byte strings: `std::vector<uint8_t>` and `std::string` are lists of byte values, and the
-- operations of `std::string` that the program uses are written out over them.
use Prim.Native.Char.{code}
use Prim.Native.Nat.{ℕ, suc, ◌<◌}
use Prim.Native.String.{String}
use mathlib.Core.Bool.{Bool, true, false, ◌&&◌, ◌||◌}
use mathlib.Core.List.{List, [], ◌∷◌, ◌++◌}
use mathlib.Core.Logic.{◌↔◌, ◌≢◌}
use mathlib.Core.Option.{Option, none, some}
use mathlib.Core.Option
use mathlib.Core.Path.{◌≡◌, refl, sym}
use native.Mathlib.Omega.{arith}
use hanport_data_parser.Base.Booleans.{◌==◌, if◌then◌else◌}
use hanport_data_parser.Base.Lists.{All, length}

abbrev pub Bytes : Type 0
Bytes = List ℕ

-- The bytes of an ASCII text.
abbrev pub codes : String → Bytes
codes String.[] = []
codes (String.◌∷◌ c s) = code c ∷ codes s

abbrev pub IsByte : ℕ → Type 0
IsByte b = b < 256

abbrev pub IsBytes : Bytes → Type 0
IsBytes = All IsByte

-- No byte of the string is `c`.
abbrev pub Lacks : ℕ → Bytes → Type 0
Lacks c = All (λ b. b ≢ c)

-- `a == b` of two strings.
unfoldable pub equal : Bytes → Bytes → Bool
equal [] [] = true
equal [] (y ∷ t) = false
equal (x ∷ s) [] = false
equal (x ∷ s) (y ∷ t) = let rest = equal s t in if x == y then rest else false

-- `s.find(c)` for a byte `c`; `none` is `npos`.
unfoldable pub find : ℕ → Bytes → Option ℕ
find c [] = none
find c (x ∷ xs) = if x == c then some 0 else Option.map suc (find c xs)

unfoldable pub starts_with : Bytes → Bytes → Bool
starts_with [] xs = true
starts_with (p ∷ ps) [] = false
starts_with (p ∷ ps) (x ∷ xs) = p == x && starts_with ps xs

-- `s.find(p) != npos` for a string `p`.
unfoldable pub contains : Bytes → Bytes → Bool
unfolding starts_with
contains p [] = starts_with p []
contains p (x ∷ xs) = starts_with p (x ∷ xs) || contains p xs

pub equal_iff : (s t : Bytes) → (equal s t ≡ true) ↔ (s ≡ t)
unfolding equal
equal_iff [] [] = (λ h. refl, λ h. refl)
equal_iff [] (y ∷ t) = (λ h. cc, λ h. cc)
equal_iff (x ∷ s) [] = (λ h. cc, λ h. cc)
equal_iff (x ∷ s) (y ∷ t) = ground (arith, equal_iff s t)

pub find-append : (c : ℕ) (xs ys : Bytes) → Lacks c xs → find c (xs ++ c ∷ ys) ≡ some (length xs)
unfolding find
find-append c [] ys l = ground arith
find-append c (x ∷ xs) ys l = ground (arith, find-append c xs ys l.1)

pub find-Lacks : (c : ℕ) (xs : Bytes) → Lacks c xs → find c xs ≡ none
unfolding find
find-Lacks c [] l = refl
find-Lacks c (x ∷ xs) l = ground (arith, find-Lacks c xs l.1)

pub cons_inj : (c : ℕ) (x y : Bytes) → c ∷ x ≡ c ∷ y → x ≡ y
cons_inj c x y e = cc

pub append_left_inj : (base x y : Bytes) → base ++ x ≡ base ++ y → x ≡ y
append_left_inj [] x y e = e
append_left_inj (c ∷ base) x y e = append_left_inj base x y (cons_inj c (base ++ x) (base ++ y) e)

-- A text is determined by what stands in front of the first `c` and behind it.
pub mark_inj :
    (c : ℕ) (x y s t : Bytes) → Lacks c x → Lacks c y → x ++ c ∷ s ≡ y ++ c ∷ t → (x ≡ y) × (s ≡ t)
mark_inj c [] [] s t l m e = (refl, cons_inj c s t e)
mark_inj c [] (b ∷ y) s t l m e = let same : c ≡ b = cc in absurd (m.0 (sym same))
mark_inj c (a ∷ x) [] s t l m e = let same : a ≡ c = cc in absurd (l.0 same)
mark_inj c (a ∷ x) (b ∷ y) s t l m e =
    let same : a ≡ b = cc in
    let rest : x ++ c ∷ s ≡ y ++ c ∷ t = cc in
    let (p, q) = mark_inj c x y s t l.1 m.1 rest in (cc, q)
