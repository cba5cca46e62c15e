-- ===== src/Validator/Hex.antt =====
-- Four hexadecimal digits, as a meter sends its checksum, and how `std::stoi` reads them.
use hanport_data_parser.Base.{
  ℕ, ◌+◌, ◌-◌, ◌*◌, ◌/◌, ◌%◌, ◌^◌, ◌<◌, false, [], ◌∷◌, some, ◌≡◌, ap, ◌∙◌, ◌||◌, ◌==◌, ltb,
  if◌then◌else◌, arith,
}
use hanport_data_parser.Base.Bytes.{Bytes}
use hanport_data_parser.Base.Int.{pos, to_u16}
use hanport_data_parser.Base.Numerals.{
  is_space, skip_spaces, digit_value, digit_in, read_digits, read_number, read_prefixed, in_range,
  read_signed, stoi, stoi_lem,
}

unfoldable pub hex_digit : ℕ → ℕ
hex_digit d = if ltb d 10 then b'0' + d else b'A' + (d - 10)

abbrev pub hex_word : ℕ → Bytes
hex_word n =
    hex_digit (n / 4096 % 16)
    ∷ hex_digit (n / 256 % 16)
    ∷ hex_digit (n / 16 % 16)
    ∷ hex_digit (n % 16)
    ∷ []

digit_in-hex_digit : (d : ℕ) → d < 16 → digit_in 16 (hex_digit d) ≡ some d
unfolding digit_in digit_value hex_digit
digit_in-hex_digit d h = ground arith

-- A digit is none of the bytes that mean anything else to `std::stoi` or to the framing.
pub record IsPlain (c : ℕ) : Type 0 where
  pub no_space : is_space c ≡ false
  pub no_minus : (c == b'-') ≡ false
  pub no_plus : (c == b'+') ≡ false
  pub no_x : (c == b'x' || c == b'X') ≡ false

hex_digit-IsPlain : (d : ℕ) → d < 16 → IsPlain (hex_digit d)
unfolding hex_digit is_space
hex_digit-IsPlain d h = ground arith

module _ (a b c d : ℕ) (ha : a < 16) (hb : b < 16) (hc : c < 16) (hd : d < 16) where
  read_number-hex :
      read_number 16 (hex_digit a ∷ hex_digit b ∷ hex_digit c ∷ hex_digit d ∷ [])
      ≡ some (((a * 16 + b) * 16 + c) * 16 + d)
  unfolding read_number read_digits
  read_number-hex = ground (
    arith,
    digit_in-hex_digit a ha,
    digit_in-hex_digit b hb,
    digit_in-hex_digit c hc,
    digit_in-hex_digit d hd,
  )

  read_prefixed-hex :
      read_prefixed 16 (hex_digit a ∷ hex_digit b ∷ hex_digit c ∷ hex_digit d ∷ [])
      ≡ some (((a * 16 + b) * 16 + c) * 16 + d)
  unfolding read_prefixed
  read_prefixed-hex = ground (arith, (hex_digit-IsPlain b hb).no_x, read_number-hex)

  stoi-digits :
      stoi 16 (hex_digit a ∷ hex_digit b ∷ hex_digit c ∷ hex_digit d ∷ [])
      ≡ some (pos (((a * 16 + b) * 16 + c) * 16 + d))
  unfolding skip_spaces read_signed in_range
  stoi-digits =
      let p = hex_digit-IsPlain a ha in
      stoi_lem 16 _
      ∙ rw (p.no_space) (rw (p.no_minus) (rw (p.no_plus) (rw read_prefixed-hex (ground arith))))

-- `std::stoi` reads back every 16-bit word from its four digits.
pub stoi-hex_word : (n : ℕ) → n < 2 ^ 16 → stoi 16 (hex_word n) ≡ some (pos n)
stoi-hex_word n h =
    stoi-digits (n / 4096 % 16) (n / 256 % 16) (n / 16 % 16) (n % 16) (omega arith) (omega arith)
      (omega arith) (omega arith)
    ∙ ap (λ (k : ℕ). some (pos k)) (omega arith)

pub to_u16-pos : (n : ℕ) → n < 2 ^ 16 → to_u16 (pos n) ≡ n
unfolding to_u16
to_u16-pos n h = omega arith
