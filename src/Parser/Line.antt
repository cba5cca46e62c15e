-- ===== src/Parser/Line.antt =====
-- One line of a telegram as a meter prints it, and what the parser takes out of it.
use mathlib.Core.Path.{subst}
use hanport_data_parser.Base.{
  ℕ, ◌+◌, ◌-◌, Bool, true, false, not, ◌&&◌, [], ◌∷◌, ◌++◌, some, ◌≡◌, refl, sym, ap, ◌∙◌, ◌≢◌,
  ◌==◌, ltb, arith, All-append, length, length-append, append_assoc, take, drop, take-length-append,
  drop-length-append,
}
use hanport_data_parser.Base.Bytes.{Bytes, Lacks, find, find-append, starts_with, contains}
use hanport_data_parser.Base.Result.{bad_float}
use hanport_data_parser.Data.{HpData, Field}
use hanport_data_parser.Floats.{Floats}
use hanport_data_parser.Parser.{
  between, stamp, obis_code_of, to_float, set_value, parse_electricity_data, parse_line,
}
use hanport_data_parser.Parser.Message.{all_rows-find_code}
use hanport_data_parser.Parser.Obis.{stored_table, find_code}

-- `1-0:1.8.0(00000123.456*kWh)`: the code, the value and what follows the star.
abbrev pub line_of : Bytes → Bytes → Bytes → Bytes
line_of code value unit = code ++ b'(' ∷ (value ++ b'*' ∷ unit)

-- None of the bytes that have a meaning in a line.
abbrev pub IsPlain : Bytes → Type 0
IsPlain s = Lacks b'(' s × Lacks b'*' s × Lacks b':' s

abbrev plain_byte : ℕ → Bool
plain_byte c = not (c == b'(') && not (c == b'*') && not (c == b':')

abbrev plain : Bytes → Bool
plain [] = true
plain (c ∷ s) = plain_byte c && plain s

plain-IsPlain : (s : Bytes) → plain s ≡ true → IsPlain s
plain-IsPlain [] h = (tt, tt, tt)
plain-IsPlain (c ∷ s) h = ground (arith, plain-IsPlain s)

-- Every code of the table begins with `1-0:` and goes on plainly.
abbrev is_code : Bytes → Bool
is_code (a ∷ b ∷ c ∷ d ∷ s) = a == b'1' && b == b'-' && c == b'0' && d == b':' && plain s
is_code _ = false

abbrev pub prefix : Bytes → Bytes
prefix s = b'1' ∷ b'-' ∷ b'0' ∷ b':' ∷ s

pub record IsCode (code : Bytes) : Type 0 where
  pub digits : Bytes
  pub parts : code ≡ prefix digits
  pub is_plain : IsPlain digits

is_code-IsCode : (code : Bytes) → is_code code ≡ true → IsCode code
is_code-IsCode (a ∷ b ∷ c ∷ d ∷ s) h = record {
  digits = s;
  parts = ground arith;
  is_plain = plain-IsPlain s (ground arith);
}
is_code-IsCode [] h = cc
is_code-IsCode (a ∷ []) h = cc
is_code-IsCode (a ∷ b ∷ []) h = cc
is_code-IsCode (a ∷ b ∷ c ∷ []) h = cc

pub find_code-IsCode :
    (code : Bytes) (f : Field) → find_code code stored_table ≡ some f → IsCode code
find_code-IsCode code f e =
    is_code-IsCode code (all_rows-find_code (λ c g. is_code c) stored_table code f refl e)

-- The time stamp has a colon behind three bytes.
starts_with-stamp : (s : Bytes) → Lacks b':' s → starts_with stamp s ≡ false
unfolding starts_with
starts_with-stamp [] l = refl
starts_with-stamp (a ∷ []) l = ground arith
starts_with-stamp (a ∷ b ∷ []) l = ground arith
starts_with-stamp (a ∷ b ∷ c ∷ []) l = ground arith
starts_with-stamp (a ∷ b ∷ c ∷ d ∷ s) l = ground arith

contains-stamp : (s : Bytes) → Lacks b':' s → contains stamp s ≡ false
unfolding contains
contains-stamp [] l = refl
contains-stamp (a ∷ s) l = rw (starts_with-stamp (a ∷ s) l) (contains-stamp s l.1)

module _ (digits value unit : Bytes) (d : IsPlain digits) (v : IsPlain value)
    (u : Lacks b':' unit) where
  abbrev code : Bytes
  code = prefix digits

  abbrev line : Bytes
  line = line_of code value unit

  code-Lacks : Lacks b'(' code
  code-Lacks = (omega arith, (omega arith, (omega arith, (omega arith, d.0))))

  line-find_dash : find b'-' line ≡ some 1
  unfolding find
  line-find_dash = refl

  line-contains-stamp : contains stamp line ≡ false
  unfolding contains starts_with
  line-contains-stamp = contains-stamp (digits ++ b'(' ∷ (value ++ b'*' ∷ unit)) (
      All-append (λ b. b ≢ b':') digits (b'(' ∷ (value ++ b'*' ∷ unit)) d.2
        (omega arith, All-append (λ b. b ≢ b':') value (b'*' ∷ unit) v.2 (omega arith, u)))

  line-find_paren : find b'(' line ≡ some (length code)
  line-find_paren = find-append b'(' code (value ++ b'*' ∷ unit) code-Lacks

  line-obis_code_of : obis_code_of line ≡ code
  unfolding obis_code_of
  line-obis_code_of =
      rw (line-find_paren, obis_code_of) (take-length-append code (b'(' ∷ (value ++ b'*' ∷ unit)))

  abbrev opening : Bytes
  opening = code ++ b'(' ∷ []

  opening-length : length opening ≡ length code + 1
  opening-length = length-append code (b'(' ∷ [])

  line-find_star : find b'*' line ≡ some (length code + 1 + length value)
  line-find_star =
      ap (find b'*') (sym (append_assoc code (b'(' ∷ value) (b'*' ∷ unit)))
      ∙ find-append b'*' (code ++ b'(' ∷ value) unit (
          All-append (λ b. b ≢ b'*') code (b'(' ∷ value)
            (omega arith, (omega arith, (omega arith, (omega arith, d.1)))) (omega arith, v.1))
      ∙ ap some (omega (arith, length-append code (b'(' ∷ value)))

  line-drop : drop (length code + 1) line ≡ value ++ b'*' ∷ unit
  line-drop =
      ap (λ (n : ℕ). drop n line) (sym opening-length)
      ∙ ap (drop (length opening)) (sym (append_assoc code (b'(' ∷ []) (value ++ b'*' ∷ unit)))
      ∙ drop-length-append opening (value ++ b'*' ∷ unit)

  line-between : between (length code + 1) (length code + 1 + length value) line ≡ value
  unfolding between
  line-between =
      let forward : ltb (length code + 1 + length value) (length code + 1) ≡ false = ground arith in
      let count : length code + 1 + length value - (length code + 1) ≡ length value = omega arith in
      rw (forward, between)
        (ap (λ (n : ℕ). take n (drop (length code + 1) line)) count
          ∙ ap (take (length value)) line-drop
          ∙ take-length-append value (b'*' ∷ unit))

  module _ (F : Floats) where
    set_value-line : set_value F line ≡ to_float F bad_float value
    unfolding set_value
    set_value-line =
        rw (line-find_paren, set_value)
          (rw (line-find_star) (ap (to_float F bad_float) line-between))

    parse_line-line :
        (o : HpData F.Float) → parse_line F line o ≡ parse_electricity_data F line code o
    unfolding parse_line find
    parse_line-line o =
        rw (line-contains-stamp, parse_line)
          (ap (λ (c : Bytes). parse_electricity_data F line c o) line-obis_code_of)

module _ (F : Floats) (code value unit : Bytes) (c : IsCode code) (v : IsPlain value)
    (u : Lacks b':' unit) where
  -- The value of a line is the text between the parenthesis and the star.
  pub set_value-line_of : set_value F (line_of code value unit) ≡ to_float F bad_float value
  set_value-line_of =
      subst (λ (k : Bytes). set_value F (line_of k value unit) ≡ to_float F bad_float value)
        (sym c.parts) (set_value-line c.digits value unit c.is_plain v u F)

  -- A printed line is no time line, and goes to `parse_electricity_data` under its code.
  pub parse_line-line_of :
      (o : HpData F.Float)
      → parse_line F (line_of code value unit) o
        ≡ parse_electricity_data F (line_of code value unit) code o
  parse_line-line_of o =
      subst
        (λ (k : Bytes).
          parse_line F (line_of k value unit) o
          ≡ parse_electricity_data F (line_of k value unit) k o)
        (sym c.parts) (parse_line-line c.digits value unit c.is_plain v u F o)
