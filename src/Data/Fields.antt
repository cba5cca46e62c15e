-- ===== src/Data/Fields.antt =====
-- Reading a member of `hpData` after a member was written.
use hanport_data_parser.Base.{ℕ, Bool, ◌≡◌, refl, ◌==◌, if◌then◌else◌}
use hanport_data_parser.Data.{
  HpData, Field, get, set, active_energy_import_total, active_energy_export_total,
  reactive_energy_import_total, reactive_energy_export_total, active_power_import,
  active_power_export, reactive_power_import, reactive_power_export, l1_active_power_import,
  l1_active_power_export, l2_active_power_import, l2_active_power_export, l3_active_power_import,
  l3_active_power_export, l1_reactive_power_import, l1_reactive_power_export,
  l2_reactive_power_import, l2_reactive_power_export, l3_reactive_power_import,
  l3_reactive_power_export, l1_voltage_rms, l2_voltage_rms, l3_voltage_rms, l1_current_rms,
  l2_current_rms, l3_current_rms,
}

-- The position of a member in the class.
abbrev pub position : Field → ℕ
position active_energy_import_total = 0
position active_energy_export_total = 1
position reactive_energy_import_total = 2
position reactive_energy_export_total = 3
position active_power_import = 4
position active_power_export = 5
position reactive_power_import = 6
position reactive_power_export = 7
position l1_active_power_import = 8
position l1_active_power_export = 9
position l2_active_power_import = 10
position l2_active_power_export = 11
position l3_active_power_import = 12
position l3_active_power_export = 13
position l1_reactive_power_import = 14
position l1_reactive_power_export = 15
position l2_reactive_power_import = 16
position l2_reactive_power_export = 17
position l3_reactive_power_import = 18
position l3_reactive_power_export = 19
position l1_voltage_rms = 20
position l2_voltage_rms = 21
position l3_voltage_rms = 22
position l1_current_rms = 23
position l2_current_rms = 24
position l3_current_rms = 25

abbrev pub same : Field → Field → Bool
same f g = position f == position g

-- A write changes the member that it names and no other.
pub get-set :
    {Float : Type 0} (f g : Field) (v : Float) (d : HpData Float)
    → get f (set g v d) ≡ (if same f g then v else get f d)
get-set active_energy_import_total g v d =
    elim g
      as (λ g'.
        get active_energy_import_total (set g' v d)
        ≡ (if same active_energy_import_total g' then v else get active_energy_import_total d)) [
          | active_energy_import_total ↦ refl
          | _ ↦ refl
        ]
get-set f g v d = elim g as (λ g'. get f (set g' v d) ≡ (if same f g' then v else get f d)) [
  | active_energy_import_total ↦ refl
  | _ ↦ refl
]
