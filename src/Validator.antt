-- ===== src/Validator.antt =====
-- `HanportMessageValidator` (src/hpMessageValidator.cpp, include/hpMessageValidator.hpp): it splits
-- a raw telegram at `!`, reads the checksum behind it, and computes the checksum of the rest.
pub mod Crc
pub mod Extract
pub mod Hex
pub mod Lines
pub mod Telegram
use hanport_data_parser.Base.{
  ℕ, zero, suc, ◌+◌, ◌/◌, not, ◌&&◌, List, [], ◌∷◌, ◌++◌, Option, none, some, bit_and, bit_xor,
  ◌==◌, if◌then◌else◌, take, drop,
}
use hanport_data_parser.Base.Bytes.{Bytes}
use hanport_data_parser.Base.Int.{to_u16}
use hanport_data_parser.Base.Numerals.{stoi}
use hanport_data_parser.Base.Result.{
  Result, ok, err, ◌>>=◌, no_end_marker, missing_crc, bad_crc, no_lines,
}

pub record HanportMessageValidator : Type 0 where
  pub raw_hp_message : Bytes
  pub hp_meter_data : Bytes
  pub calculated_crc : ℕ
  pub transmitted_crc : ℕ

-- The loop of `extract_message`: the position of the first `!`, counted on from `i`.
pub find_end : ℕ → Bytes → Option ℕ
find_end i [] = none
find_end i (b ∷ bs) = let rest = find_end (i + 1) bs in if b == b'!' then some i else rest

-- The position is the method's return value.
pub extract_message : HanportMessageValidator → Result (HanportMessageValidator × ℕ)
unfolding find_end
extract_message v = elim (find_end 0 v.raw_hp_message) [
  | none ↦ err no_end_marker
  | some exclamation_pos ↦
      ok (record v { hp_meter_data = take (exclamation_pos + 1) v.raw_hp_message }, exclamation_pos)
]

-- The loop of `extract_crc`: every byte but carriage returns and line feeds.
unfoldable pub strip_line_ends : Bytes → Bytes
strip_line_ends [] = []
strip_line_ends (b ∷ bs) =
    let rest = strip_line_ends bs in if not (b == b'\r') && not (b == b'\n') then b ∷ rest else rest

pub parse_crc : Bytes → HanportMessageValidator → Result HanportMessageValidator
parse_crc [] v = err missing_crc
parse_crc (c ∷ cs) v = elim (stoi 16 (c ∷ cs)) [
  | none ↦ err bad_crc
  | some i ↦ ok (record v { transmitted_crc = to_u16 i })
]

unfoldable extract_crc : ℕ → HanportMessageValidator → Result HanportMessageValidator
unfolding strip_line_ends parse_crc
extract_crc exclamation_pos v =
    parse_crc (strip_line_ends (drop (exclamation_pos + 1) v.raw_hp_message)) v

-- The body of the inner loop of `calculate_crc`.
pub crc_round : ℕ → ℕ
crc_round crc = if bit_and crc 0x0001 == 0 then crc / 2 else bit_xor (crc / 2) 0xA001

pub crc_rounds : ℕ → ℕ → ℕ
unfolding crc_round
crc_rounds zero crc = crc
crc_rounds (suc j) crc = crc_rounds j (crc_round crc)

-- The outer loop, from the value `crc`.
unfoldable pub crc_from : ℕ → Bytes → ℕ
unfolding crc_rounds
crc_from crc [] = crc
crc_from crc (b ∷ bs) = crc_from (crc_rounds 8 (bit_xor crc b)) bs

pub calculate_crc : HanportMessageValidator → HanportMessageValidator
unfolding crc_from
calculate_crc v = record v { calculated_crc = crc_from 0x0000 v.hp_meter_data }

-- The object before the constructor's body, but for its first assignment. The two checksums are
-- set before anything reads them.
abbrev pub fresh : Bytes → HanportMessageValidator
fresh raw = record {
  raw_hp_message = raw;
  hp_meter_data = [];
  calculated_crc = 0;
  transmitted_crc = 0;
}

-- The constructor.
unfoldable pub construct : Bytes → Result HanportMessageValidator
unfolding extract_message extract_crc calculate_crc
construct raw = do
  (v', exclamation_pos) ← extract_message (fresh raw)
  v'' ← extract_crc exclamation_pos v'
  ok (calculate_crc v'')

-- `std::getline` until the stream ends: a line feed ends a line, and what stands behind the last
-- one is a line unless it is empty. `line` holds the bytes of the current line.
unfoldable pub split_lines : Bytes → Bytes → List Bytes
split_lines [] [] = []
split_lines (c ∷ line) [] = (c ∷ line) ∷ []
split_lines line (b ∷ bs) =
    let ended = line ∷ split_lines [] bs in
    let longer = split_lines (line ++ b ∷ []) bs in if b == b'\n' then ended else longer

pub lines_or_throw : List Bytes → Result (List Bytes)
lines_or_throw [] = err no_lines
lines_or_throw (l ∷ ls) = ok (l ∷ ls)

pub message_to_string_arr : HanportMessageValidator → Result (List Bytes)
unfolding split_lines lines_or_throw
message_to_string_arr v = lines_or_throw (split_lines [] v.hp_meter_data)

pub get_calculated_crc : HanportMessageValidator → ℕ
get_calculated_crc v = v.calculated_crc

pub get_transmitted_crc : HanportMessageValidator → ℕ
get_transmitted_crc v = v.transmitted_crc
