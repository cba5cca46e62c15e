-- ===== src/Modbus/Layout.antt =====
-- Where the members of `hpData` stand among the registers.
use hanport_data_parser.Base.{
  ℕ, suc, ◌+◌, ◌*◌, ◌^◌, ◌<◌, List, [], ◌∷◌, Option, none, some, ◌≡◌, refl, arith, All, length,
  get_elem?, Bool, true, false, if◌then◌else◌,
}
use hanport_data_parser.Base.Int.{ℤ, to_u16-lt, shift_right}
use hanport_data_parser.Data.{
  HpData, Field, get, active_energy_import_total, active_energy_export_total,
  reactive_energy_import_total, reactive_energy_export_total, l1_voltage_rms, l2_voltage_rms,
  l3_voltage_rms, l1_current_rms, l2_current_rms, l3_current_rms,
}
use hanport_data_parser.Data.Fields.{position}
use hanport_data_parser.Floats.{Floats}
use hanport_data_parser.Modbus.{int_to_regs, float_to_regs, milli, make_regs}

-- The two registers from an address on.
abbrev pub pair_at : ℕ → List ℕ → Option (List ℕ)
pair_at i regs = elim (get_elem? regs i) [
  | none ↦ none
  | some low ↦ (elim (get_elem? regs (suc i)) [ none ↦ none | some high ↦ some (low ∷ high ∷ []) ])
]

-- The first of the two registers of a member: the heartbeat has the registers 0 and 1.
abbrev pub register_of : Field → ℕ
register_of f = 2 * (position f + 1)

abbrev pub IsRegister : ℕ → Type 0
IsRegister r = r < 2 ^ 16

-- Energies, voltages and currents are sent as `float`s, powers as thousandths in an `int`.
abbrev pub sent_as_float : Field → Bool
sent_as_float active_energy_import_total = true
sent_as_float active_energy_export_total = true
sent_as_float reactive_energy_import_total = true
sent_as_float reactive_energy_export_total = true
sent_as_float l1_voltage_rms = true
sent_as_float l2_voltage_rms = true
sent_as_float l3_voltage_rms = true
sent_as_float l1_current_rms = true
sent_as_float l2_current_rms = true
sent_as_float l3_current_rms = true
sent_as_float _ = false

module _ (F : Floats) where
  open F use {Float}

  abbrev pub encode : Field → Float → List ℕ
  encode f v = if sent_as_float f then float_to_regs F v else int_to_regs (milli F v)

  -- There are 54 registers; the heartbeat stands in the first two, and each member in the two from
  -- `register_of` on, in its encoding.
  pub make_regs-pair_at :
      (d : HpData Float)
      → (length (make_regs F d) ≡ 54)
        × (pair_at 0 (make_regs F d) ≡ some (int_to_regs d.heartbeat))
        × ((f : Field) → pair_at (register_of f) (make_regs F d) ≡ some (encode f (get f d)))
  unfolding make_regs int_to_regs float_to_regs
  make_regs-pair_at d = (refl, refl, by_field)
    where
      by_field : (f : Field) → pair_at (register_of f) (make_regs F d) ≡ some (encode f (get f d))
      by_field active_energy_import_total = refl
      by_field _ = refl

  pub int_to_regs-IsRegister : (i : ℤ) → All IsRegister (int_to_regs i)
  unfolding int_to_regs
  int_to_regs-IsRegister i = (to_u16-lt i, (to_u16-lt (shift_right i 16), tt))

  pub float_to_regs-IsRegister : (f : Float) → All IsRegister (float_to_regs F f)
  unfolding float_to_regs
  float_to_regs-IsRegister f = omega arith

  -- No register overflows, whatever the readings are.
  pub make_regs-IsRegister : (d : HpData Float) → All IsRegister (make_regs F d)
  unfolding make_regs int_to_regs float_to_regs
  make_regs-IsRegister d = omega (arith, to_u16-lt)
