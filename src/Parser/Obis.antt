-- ===== src/Parser/Obis.antt =====
-- The ladder of `parse_electricity_data` against the table of OBIS codes of the meter interface.
use hanport_data_parser.Base.{
  Bool, true, false, List, [], ◌∷◌, Option, none, some, ◌≡◌, refl, ◌≢◌, inl, inr, if◌then◌else◌,
  Bool-cases, map,
}
use hanport_data_parser.Base.Bytes.{Bytes, codes, equal, equal_iff}
use hanport_data_parser.Base.Result.{Result, ok, ◌>>=◌}
use hanport_data_parser.Data.{
  HpData, Field, set, active_energy_import_total, active_energy_export_total,
  reactive_energy_import_total, reactive_energy_export_total, active_power_import,
  active_power_export, reactive_power_import, reactive_power_export, l1_active_power_import,
  l1_active_power_export, l2_active_power_import, l2_active_power_export, l3_active_power_import,
  l3_active_power_export, l1_reactive_power_import, l1_reactive_power_export,
  l2_reactive_power_import, l2_reactive_power_export, l3_reactive_power_import,
  l3_reactive_power_export, l1_voltage_rms, l2_voltage_rms, l3_voltage_rms, l1_current_rms,
  l2_current_rms, l3_current_rms,
}
use hanport_data_parser.Floats.{Floats}
use hanport_data_parser.Parser.{set_value, parse_electricity_data}

-- What each code stands for.
abbrev pub obis_table : List (Bytes × Field)
obis_table =
    (codes "1-0:1.8.0", active_energy_import_total)
    ∷ (codes "1-0:2.8.0", active_energy_export_total)
    ∷ (codes "1-0:3.8.0", reactive_energy_import_total)
    ∷ (codes "1-0:4.8.0", reactive_energy_export_total)
    ∷ (codes "1-0:1.7.0", active_power_import)
    ∷ (codes "1-0:2.7.0", active_power_export)
    ∷ (codes "1-0:3.7.0", reactive_power_import)
    ∷ (codes "1-0:4.7.0", reactive_power_export)
    ∷ (codes "1-0:21.7.0", l1_active_power_import)
    ∷ (codes "1-0:22.7.0", l1_active_power_export)
    ∷ (codes "1-0:41.7.0", l2_active_power_import)
    ∷ (codes "1-0:42.7.0", l2_active_power_export)
    ∷ (codes "1-0:61.7.0", l3_active_power_import)
    ∷ (codes "1-0:62.7.0", l3_active_power_export)
    ∷ (codes "1-0:23.7.0", l1_reactive_power_import)
    ∷ (codes "1-0:24.7.0", l1_reactive_power_export)
    ∷ (codes "1-0:43.7.0", l2_reactive_power_import)
    ∷ (codes "1-0:44.7.0", l2_reactive_power_export)
    ∷ (codes "1-0:63.7.0", l3_reactive_power_import)
    ∷ (codes "1-0:64.7.0", l3_reactive_power_export)
    ∷ (codes "1-0:32.7.0", l1_voltage_rms)
    ∷ (codes "1-0:52.7.0", l2_voltage_rms)
    ∷ (codes "1-0:72.7.0", l3_voltage_rms)
    ∷ (codes "1-0:31.7.0", l1_current_rms)
    ∷ (codes "1-0:51.7.0", l2_current_rms)
    ∷ (codes "1-0:71.7.0", l3_current_rms)
    ∷ []

abbrev pub find_code : Bytes → List (Bytes × Field) → Option Field
find_code code [] = none
find_code code ((c, f) ∷ rows) = if equal code c then some f else find_code code rows

-- The code of total reactive power on phase 3, import.
abbrev pub l3_code : Bytes
l3_code = codes "1-0:63.7.0"

-- The member that the value goes into: that of the table, but the import reading of reactive power
-- on phase 3 goes into the export reading.
abbrev pub stored_as : Field → Field
stored_as l3_reactive_power_import = l3_reactive_power_export
stored_as f = f

-- Where the source stores the value of each code.
abbrev pub stored_table : List (Bytes × Field)
stored_table = map (λ (row : Bytes × Field). (row.0, stored_as row.1)) obis_table

equal_ne : (a b : Bytes) → a ≢ b → equal a b ≡ false
equal_ne a b ne = elim (Bool-cases (equal a b)) [
  | inl e ↦ absurd (ne ((equal_iff a b).0 e))
  | inr e ↦ e
]

module _ (F : Floats) where
  open F use {Float}

  -- A line's value goes into the reading of its code; a line with another code does nothing.
  abbrev pub store_reading : Option Field → Bytes → HpData Float → Result (HpData Float)
  store_reading none line d = ok d
  store_reading (some f) line d = set_value F line >>= λ v. ok (set f v d)

  if-store :
      (b : Bool) (x y : Option Field) (line : Bytes) (d : HpData Float)
      → store_reading (if b then x else y) line d
        ≡ (if b then store_reading x line d else store_reading y line d)
  if-store true x y line d = refl
  if-store false x y line d = refl

  -- For every code but that of reactive power import on phase 3, `parse_electricity_data` stores the
  -- value of the line in the reading that the table names, and a code that the table lacks changes
  -- nothing; it fails only where `set_value` does.
  pub parse_electricity_data-obis_table :
      (line code : Bytes) (d : HpData Float)
      → code ≢ l3_code
      → parse_electricity_data F line code d ≡ store_reading (find_code code obis_table) line d
  unfolding parse_electricity_data
  parse_electricity_data-obis_table line code d ne =
      let other : equal code l3_code ≡ false = equal_ne code l3_code ne in
      rw (other, parse_electricity_data) (simp if-store)

  -- The code of reactive power import on phase 3 changes the export reading instead.
  pub parse_electricity_data-l3_code :
      (line : Bytes) (d : HpData Float)
      → parse_electricity_data F line l3_code d
        ≡ store_reading (some l3_reactive_power_export) line d
  unfolding parse_electricity_data equal
  parse_electricity_data-l3_code line d = refl

  -- What `parse_electricity_data` does with every code.
  pub parse_electricity_data-stored_table :
      (line code : Bytes) (d : HpData Float)
      → parse_electricity_data F line code d ≡ store_reading (find_code code stored_table) line d
  unfolding parse_electricity_data
  parse_electricity_data-stored_table line code d = simp if-store
