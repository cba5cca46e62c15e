-- ===== src/Data.antt =====
-- `hpData` (src/hpData.hpp in include/): the meter readings, with the heartbeat counter.
pub mod Fields
use hanport_data_parser.Base.Int.{ℤ, pos}

-- `Float` is the type of the readings.
pub record HpData (Float : Type 0) : Type 0 where
  pub heartbeat : ℤ
  pub active_energy_import_total : Float
  pub active_energy_export_total : Float
  pub reactive_energy_import_total : Float
  pub reactive_energy_export_total : Float
  pub active_power_import : Float
  pub active_power_export : Float
  pub reactive_power_import : Float
  pub reactive_power_export : Float
  pub l1_active_power_import : Float
  pub l1_active_power_export : Float
  pub l2_active_power_import : Float
  pub l2_active_power_export : Float
  pub l3_active_power_import : Float
  pub l3_active_power_export : Float
  pub l1_reactive_power_import : Float
  pub l1_reactive_power_export : Float
  pub l2_reactive_power_import : Float
  pub l2_reactive_power_export : Float
  pub l3_reactive_power_import : Float
  pub l3_reactive_power_export : Float
  pub l1_voltage_rms : Float
  pub l2_voltage_rms : Float
  pub l3_voltage_rms : Float
  pub l1_current_rms : Float
  pub l2_current_rms : Float
  pub l3_current_rms : Float

-- The names of the readings.
pub data Field : Type 0 where
  active_energy_import_total : Field
  active_energy_export_total : Field
  reactive_energy_import_total : Field
  reactive_energy_export_total : Field
  active_power_import : Field
  active_power_export : Field
  reactive_power_import : Field
  reactive_power_export : Field
  l1_active_power_import : Field
  l1_active_power_export : Field
  l2_active_power_import : Field
  l2_active_power_export : Field
  l3_active_power_import : Field
  l3_active_power_export : Field
  l1_reactive_power_import : Field
  l1_reactive_power_export : Field
  l2_reactive_power_import : Field
  l2_reactive_power_export : Field
  l3_reactive_power_import : Field
  l3_reactive_power_export : Field
  l1_voltage_rms : Field
  l2_voltage_rms : Field
  l3_voltage_rms : Field
  l1_current_rms : Field
  l2_current_rms : Field
  l3_current_rms : Field

module _ {Float : Type 0} where
  -- The object as it is declared: every member is 0.
  unfoldable pub initial : Float → HpData Float
  initial zero = record {
    heartbeat = pos 0;
    active_energy_import_total = zero;
    active_energy_export_total = zero;
    reactive_energy_import_total = zero;
    reactive_energy_export_total = zero;
    active_power_import = zero;
    active_power_export = zero;
    reactive_power_import = zero;
    reactive_power_export = zero;
    l1_active_power_import = zero;
    l1_active_power_export = zero;
    l2_active_power_import = zero;
    l2_active_power_export = zero;
    l3_active_power_import = zero;
    l3_active_power_export = zero;
    l1_reactive_power_import = zero;
    l1_reactive_power_export = zero;
    l2_reactive_power_import = zero;
    l2_reactive_power_export = zero;
    l3_reactive_power_import = zero;
    l3_reactive_power_export = zero;
    l1_voltage_rms = zero;
    l2_voltage_rms = zero;
    l3_voltage_rms = zero;
    l1_current_rms = zero;
    l2_current_rms = zero;
    l3_current_rms = zero;
  }

  abbrev pub get : Field → HpData Float → Float
  get active_energy_import_total d = d.active_energy_import_total
  get active_energy_export_total d = d.active_energy_export_total
  get reactive_energy_import_total d = d.reactive_energy_import_total
  get reactive_energy_export_total d = d.reactive_energy_export_total
  get active_power_import d = d.active_power_import
  get active_power_export d = d.active_power_export
  get reactive_power_import d = d.reactive_power_import
  get reactive_power_export d = d.reactive_power_export
  get l1_active_power_import d = d.l1_active_power_import
  get l1_active_power_export d = d.l1_active_power_export
  get l2_active_power_import d = d.l2_active_power_import
  get l2_active_power_export d = d.l2_active_power_export
  get l3_active_power_import d = d.l3_active_power_import
  get l3_active_power_export d = d.l3_active_power_export
  get l1_reactive_power_import d = d.l1_reactive_power_import
  get l1_reactive_power_export d = d.l1_reactive_power_export
  get l2_reactive_power_import d = d.l2_reactive_power_import
  get l2_reactive_power_export d = d.l2_reactive_power_export
  get l3_reactive_power_import d = d.l3_reactive_power_import
  get l3_reactive_power_export d = d.l3_reactive_power_export
  get l1_voltage_rms d = d.l1_voltage_rms
  get l2_voltage_rms d = d.l2_voltage_rms
  get l3_voltage_rms d = d.l3_voltage_rms
  get l1_current_rms d = d.l1_current_rms
  get l2_current_rms d = d.l2_current_rms
  get l3_current_rms d = d.l3_current_rms

  abbrev pub set : Field → Float → HpData Float → HpData Float
  set active_energy_import_total v d = record d { active_energy_import_total = v }
  set active_energy_export_total v d = record d { active_energy_export_total = v }
  set reactive_energy_import_total v d = record d { reactive_energy_import_total = v }
  set reactive_energy_export_total v d = record d { reactive_energy_export_total = v }
  set active_power_import v d = record d { active_power_import = v }
  set active_power_export v d = record d { active_power_export = v }
  set reactive_power_import v d = record d { reactive_power_import = v }
  set reactive_power_export v d = record d { reactive_power_export = v }
  set l1_active_power_import v d = record d { l1_active_power_import = v }
  set l1_active_power_export v d = record d { l1_active_power_export = v }
  set l2_active_power_import v d = record d { l2_active_power_import = v }
  set l2_active_power_export v d = record d { l2_active_power_export = v }
  set l3_active_power_import v d = record d { l3_active_power_import = v }
  set l3_active_power_export v d = record d { l3_active_power_export = v }
  set l1_reactive_power_import v d = record d { l1_reactive_power_import = v }
  set l1_reactive_power_export v d = record d { l1_reactive_power_export = v }
  set l2_reactive_power_import v d = record d { l2_reactive_power_import = v }
  set l2_reactive_power_export v d = record d { l2_reactive_power_export = v }
  set l3_reactive_power_import v d = record d { l3_reactive_power_import = v }
  set l3_reactive_power_export v d = record d { l3_reactive_power_export = v }
  set l1_voltage_rms v d = record d { l1_voltage_rms = v }
  set l2_voltage_rms v d = record d { l2_voltage_rms = v }
  set l3_voltage_rms v d = record d { l3_voltage_rms = v }
  set l1_current_rms v d = record d { l1_current_rms = v }
  set l2_current_rms v d = record d { l2_current_rms = v }
  set l3_current_rms v d = record d { l3_current_rms = v }
