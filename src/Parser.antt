-- ===== src/Parser.antt =====
-- `hpDataParser` (src/hpDataParser.cpp, include/hpDataParser.hpp): it reads the lines of a telegram
-- into an `hpData` object. Positions in a line are exact `int`s, as they are in the source for
-- every line below 2 ^ 31 bytes.
pub mod Line
pub mod Message
pub mod Obis
pub mod Render
use hanport_data_parser.Base.{
  ℕ, suc, ◌+◌, ◌-◌, ◌<◌, Bool, true, false, not, List, [], ◌∷◌, Option, none, some, ltb,
  if◌then◌else◌, take, drop,
}
use hanport_data_parser.Base.Bytes.{Bytes, codes, equal, find, contains}
use hanport_data_parser.Base.Result.{
  Error, Result, ok, err, ◌>>=◌, empty_message, no_open_paren, no_star, bad_float, no_time_open,
  no_time_close, bad_time,
}
use hanport_data_parser.Data.{HpData}
use hanport_data_parser.Floats.{Floats}

-- `line.substr(start, end - start)`: a negative count becomes a huge one, which reaches to the end.
pub between : ℕ → ℕ → Bytes → Bytes
between start end line =
    if ltb end start then drop start line else take (end - start) (drop start line)

-- The constructor.
unfoldable pub construct : List Bytes → Result (List Bytes)
construct [] = err empty_message
construct (l ∷ ls) = ok (l ∷ ls)

-- `parse_message` changes the object in place: an exception leaves what was stored before it.
pub data Parsed (D : Type 0) : Type 0 where
  finished : D → Parsed D
  thrown : Error → D → Parsed D

-- The time line, by a substring search.
abbrev pub stamp : Bytes
stamp = codes "0-0:1.0.0"

-- `line.substr(0, line.find('('))`; at `npos` that is the whole line.
unfoldable pub obis_code_of : Bytes → Bytes
obis_code_of line = elim (find b'(' line) [ none ↦ line | some n ↦ take n line ]

module _ (F : Floats) where
  open F use {Float, stof}

  -- `std::stof` inside its `try`.
  pub to_float : Error → Bytes → Result Float
  to_float e text = elim (stof text) [ none ↦ err e | some v ↦ ok v ]

  unfoldable pub set_value : Bytes → Result Float
  unfolding between to_float
  set_value line = elim (find b'(' line) [
    | none ↦ err no_open_paren
    | some open_pos ↦ (elim (find b'*' line) [
      | none ↦ err no_star
      | some end_pos ↦ to_float bad_float (between (open_pos + 1) end_pos line)
    ])
  ]

  unfoldable parse_time : Bytes → Result Float
  unfolding between to_float
  parse_time line = elim (find b'(' line) [
    | none ↦ err no_time_open
    | some open_pos ↦ (elim (find b')' line) [
      | none ↦ err no_time_close
      | some last_pos ↦ to_float bad_time (between (open_pos + 1) last_pos line)
    ])
  ]

  unfoldable pub parse_electricity_data : Bytes → Bytes → HpData Float → Result (HpData Float)
  parse_electricity_data line obis_code d =
      if equal obis_code (codes "1-0:1.8.0")
      then (set_value line >>= λ v. ok (record d { active_energy_import_total = v }))
      else if equal obis_code (codes "1-0:2.8.0")
      then (set_value line >>= λ v. ok (record d { active_energy_export_total = v }))
      else if equal obis_code (codes "1-0:3.8.0")
      then (set_value line >>= λ v. ok (record d { reactive_energy_import_total = v }))
      else if equal obis_code (codes "1-0:4.8.0")
      then (set_value line >>= λ v. ok (record d { reactive_energy_export_total = v }))
      else if equal obis_code (codes "1-0:1.7.0")
      then (set_value line >>= λ v. ok (record d { active_power_import = v }))
      else if equal obis_code (codes "1-0:2.7.0")
      then (set_value line >>= λ v. ok (record d { active_power_export = v }))
      else if equal obis_code (codes "1-0:3.7.0")
      then (set_value line >>= λ v. ok (record d { reactive_power_import = v }))
      else if equal obis_code (codes "1-0:4.7.0")
      then (set_value line >>= λ v. ok (record d { reactive_power_export = v }))
      else if equal obis_code (codes "1-0:21.7.0")
      then (set_value line >>= λ v. ok (record d { l1_active_power_import = v }))
      else if equal obis_code (codes "1-0:22.7.0")
      then (set_value line >>= λ v. ok (record d { l1_active_power_export = v }))
      else if equal obis_code (codes "1-0:41.7.0")
      then (set_value line >>= λ v. ok (record d { l2_active_power_import = v }))
      else if equal obis_code (codes "1-0:42.7.0")
      then (set_value line >>= λ v. ok (record d { l2_active_power_export = v }))
      else if equal obis_code (codes "1-0:61.7.0")
      then (set_value line >>= λ v. ok (record d { l3_active_power_import = v }))
      else if equal obis_code (codes "1-0:62.7.0")
      then (set_value line >>= λ v. ok (record d { l3_active_power_export = v }))
      else if equal obis_code (codes "1-0:23.7.0")
      then (set_value line >>= λ v. ok (record d { l1_reactive_power_import = v }))
      else if equal obis_code (codes "1-0:24.7.0")
      then (set_value line >>= λ v. ok (record d { l1_reactive_power_export = v }))
      else if equal obis_code (codes "1-0:43.7.0")
      then (set_value line >>= λ v. ok (record d { l2_reactive_power_import = v }))
      else if equal obis_code (codes "1-0:44.7.0")
      then (set_value line >>= λ v. ok (record d { l2_reactive_power_export = v }))
      else if equal obis_code (codes "1-0:63.7.0")
      then (set_value line >>= λ v. ok (record d { l3_reactive_power_export = v }))
      else if equal obis_code (codes "1-0:64.7.0")
      then (set_value line >>= λ v. ok (record d { l3_reactive_power_export = v }))
      else if equal obis_code (codes "1-0:32.7.0")
      then (set_value line >>= λ v. ok (record d { l1_voltage_rms = v }))
      else if equal obis_code (codes "1-0:52.7.0")
      then (set_value line >>= λ v. ok (record d { l2_voltage_rms = v }))
      else if equal obis_code (codes "1-0:72.7.0")
      then (set_value line >>= λ v. ok (record d { l3_voltage_rms = v }))
      else if equal obis_code (codes "1-0:31.7.0")
      then (set_value line >>= λ v. ok (record d { l1_current_rms = v }))
      else if equal obis_code (codes "1-0:51.7.0")
      then (set_value line >>= λ v. ok (record d { l2_current_rms = v }))
      else if equal obis_code (codes "1-0:71.7.0")
      then (set_value line >>= λ v. ok (record d { l3_current_rms = v }))
      else ok d

  -- The body of the loop of `parse_message`; both `continue`s leave the object alone.
  unfoldable pub parse_line : Bytes → HpData Float → Result (HpData Float)
  parse_line line d = elim (find b'-' line) [
    | none ↦ ok d
    | some _ ↦
        if contains stamp line then ok d else parse_electricity_data line (obis_code_of line) d
  ]

  unfoldable pub parse_message : List Bytes → HpData Float → Parsed (HpData Float)
  parse_message [] d = finished d
  parse_message (line ∷ lines) d = elim (parse_line line d) [
    | ok d' ↦ parse_message lines d'
    | err e ↦ thrown e d
  ]
