-- ===== src/Tests/Parser.antt =====
-- A telegram's lines through the parser.
use mathlib.Core.Option
use hanport_data_parser.Base.{ℕ, false, List, [], ◌∷◌, ◌≡◌, ◌≢◌, refl, inl, inr, map, arith, All}
use hanport_data_parser.Base.Bytes.{Bytes, codes, equal, equal_iff, find, contains}
use hanport_data_parser.Base.Numerals.{stoi}
use hanport_data_parser.Base.Result.{no_star}
use hanport_data_parser.Data.{
  HpData, Field, get, initial, active_power_import, l1_voltage_rms, l3_reactive_power_import,
  l3_reactive_power_export,
}
use hanport_data_parser.Parser.{
  obis_code_of, set_value, parse_electricity_data, parse_line, finished, thrown, parse_message,
}
use hanport_data_parser.Parser.Message.{object, parse_message_keeps, StopsAt, parse_message-StopsAt}
use hanport_data_parser.Parser.Obis.{
  obis_table, find_code, l3_code, store_reading, parse_electricity_data-obis_table,
}
use hanport_data_parser.Parser.Render.{
  Item, reading, other, text, IsItem, last_value, parse_message-items,
}
use hanport_data_parser.Tests.Floats.{whole}

abbrev zero_data : HpData ℕ
zero_data = initial 0

abbrev items : List (Item ℕ)
items =
    other (codes "/KFM5KAIFA-METER\r")
    ∷ other (codes "\r")
    ∷ other (codes "0-0:1.0.0(210217184019W)\r")
    ∷ reading (codes "1-0:1.7.0") (codes "3") (codes "kW)\r") active_power_import 3
    ∷ reading (codes "1-0:32.7.0") (codes "230") (codes "V)\r") l1_voltage_rms 230
    ∷ reading (codes "1-0:63.7.0") (codes "7") (codes "kVAr)\r") l3_reactive_power_export 7
    ∷ reading (codes "1-0:1.7.0") (codes "4") (codes "kW)\r") active_power_import 4
    ∷ []

codes_ne : (a b : Bytes) → equal a b ≡ false → a ≢ b
codes_ne a b h e = ground (arith, equal_iff a b)

items_are : All (IsItem whole) items
unfolding find contains obis_code_of equal stoi
items_are = (
  inr (inr refl),
  (
    inl refl,
    (
      inr (inl refl),
      (
        (refl, omega arith, omega arith, refl),
        (
          (refl, omega arith, omega arith, refl),
          ((refl, omega arith, omega arith, refl), ((refl, omega arith, omega arith, refl), tt)),
        ),
      ),
    ),
  ),
)

parse_message-items_example :
    (d : HpData ℕ) × (parse_message whole (map text items) zero_data ≡ finished d)
    × ((f : Field) → get f d ≡ Option.get_or (last_value f items) (get f zero_data))
parse_message-items_example = parse_message-items whole items zero_data items_are

-- Import and export of reactive power on phase 3, both of which the meter sends.
abbrev phase_3 : List Bytes
phase_3 = codes "1-0:64.7.0(5*kVAr)" ∷ codes "1-0:63.7.0(7*kVAr)" ∷ []

-- The import value takes the place of the export value.
phase_3_mixed :
    (get l3_reactive_power_import (object whole (parse_message whole phase_3 zero_data)) ≡ 0)
    × (get l3_reactive_power_export (object whole (parse_message whole phase_3 zero_data)) ≡ 7)
unfolding parse_message parse_line parse_electricity_data set_value find contains obis_code_of equal
    stoi initial
phase_3_mixed = (refl, refl)

parse_message_keeps_example :
    let d = object whole (parse_message whole phase_3 zero_data) in
    (d.l3_reactive_power_import ≡ zero_data.l3_reactive_power_import)
    × (d.heartbeat ≡ zero_data.heartbeat)
parse_message_keeps_example = parse_message_keeps whole phase_3 zero_data

-- The second line has no star.
abbrev broken : List Bytes
broken = codes "1-0:1.7.0(3*kW)" ∷ codes "1-0:2.7.0(3kW)" ∷ codes "1-0:32.7.0(230*V)" ∷ []

abbrev half_done : HpData ℕ
half_done = record zero_data { active_power_import = 3 }

broken_throws : parse_message whole broken zero_data ≡ thrown no_star half_done
unfolding parse_message parse_line parse_electricity_data set_value find contains obis_code_of equal
    stoi
broken_throws = refl

parse_message-StopsAt_example : StopsAt whole broken zero_data no_star half_done
parse_message-StopsAt_example =
    parse_message-StopsAt whole broken zero_data half_done no_star broken_throws

abbrev code : Bytes
code = codes "1-0:1.7.0"

parse_electricity_data-obis_table_example :
    parse_electricity_data whole (codes "1-0:1.7.0(3*kW)") code zero_data
    ≡ store_reading whole (find_code code obis_table) (codes "1-0:1.7.0(3*kW)") zero_data
unfolding equal
parse_electricity_data-obis_table_example =
    parse_electricity_data-obis_table whole (codes "1-0:1.7.0(3*kW)") code zero_data
      (codes_ne code l3_code refl)
