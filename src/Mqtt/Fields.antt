-- ===== src/Mqtt/Fields.antt =====
-- The topics of the readings: one for each member of `hpData`, all different.
use mathlib.Core.Path.{subst}
use hanport_data_parser.Base.{
  ℕ, Bool, true, not, ◌&&◌, List, [], ◌∷◌, ◌++◌, some, ◌≡◌, refl, sym, ap, ◌≢◌, arith, map, All,
  length, get_elem?,
}
use hanport_data_parser.Base.Bytes.{Bytes, codes, equal, equal_iff, append_left_inj}
use hanport_data_parser.Data.{
  HpData, Field, get, active_energy_import_total, active_energy_export_total,
  reactive_energy_import_total, reactive_energy_export_total, active_power_import,
  active_power_export, reactive_power_import, reactive_power_export, l1_active_power_import,
  l1_active_power_export, l1_reactive_power_import, l1_reactive_power_export, l1_voltage_rms,
  l1_current_rms, l2_active_power_import, l2_active_power_export, l2_reactive_power_import,
  l2_reactive_power_export, l2_voltage_rms, l2_current_rms, l3_active_power_import,
  l3_active_power_export, l3_reactive_power_import, l3_reactive_power_export, l3_voltage_rms,
  l3_current_rms,
}
use hanport_data_parser.Floats.{Floats}
use hanport_data_parser.Mqtt.{Message, fields}
use hanport_data_parser.Mqtt.Outcome.{message_of, messages}

-- The end of a member's topic.
abbrev pub suffix : Field → Bytes
suffix active_energy_import_total = codes "/energy/active_import_total"
suffix active_energy_export_total = codes "/energy/active_export_total"
suffix reactive_energy_import_total = codes "/energy/reactive_import_total"
suffix reactive_energy_export_total = codes "/energy/reactive_export_total"
suffix active_power_import = codes "/power/active_import"
suffix active_power_export = codes "/power/active_export"
suffix reactive_power_import = codes "/power/reactive_import"
suffix reactive_power_export = codes "/power/reactive_export"
suffix l1_active_power_import = codes "/l1/active_power_import"
suffix l1_active_power_export = codes "/l1/active_power_export"
suffix l1_reactive_power_import = codes "/l1/reactive_power_import"
suffix l1_reactive_power_export = codes "/l1/reactive_power_export"
suffix l1_voltage_rms = codes "/l1/voltage_rms"
suffix l1_current_rms = codes "/l1/current_rms"
suffix l2_active_power_import = codes "/l2/active_power_import"
suffix l2_active_power_export = codes "/l2/active_power_export"
suffix l2_reactive_power_import = codes "/l2/reactive_power_import"
suffix l2_reactive_power_export = codes "/l2/reactive_power_export"
suffix l2_voltage_rms = codes "/l2/voltage_rms"
suffix l2_current_rms = codes "/l2/current_rms"
suffix l3_active_power_import = codes "/l3/active_power_import"
suffix l3_active_power_export = codes "/l3/active_power_export"
suffix l3_reactive_power_import = codes "/l3/reactive_power_import"
suffix l3_reactive_power_export = codes "/l3/reactive_power_export"
suffix l3_voltage_rms = codes "/l3/voltage_rms"
suffix l3_current_rms = codes "/l3/current_rms"

-- The place of a member's message among the messages; the heartbeat has the first place.
abbrev pub place : Field → ℕ
place active_energy_import_total = 1
place active_energy_export_total = 2
place reactive_energy_import_total = 3
place reactive_energy_export_total = 4
place active_power_import = 5
place active_power_export = 6
place reactive_power_import = 7
place reactive_power_export = 8
place l1_active_power_import = 9
place l1_active_power_export = 10
place l1_reactive_power_import = 11
place l1_reactive_power_export = 12
place l1_voltage_rms = 13
place l1_current_rms = 14
place l2_active_power_import = 15
place l2_active_power_export = 16
place l2_reactive_power_import = 17
place l2_reactive_power_export = 18
place l2_voltage_rms = 19
place l2_current_rms = 20
place l3_active_power_import = 21
place l3_active_power_export = 22
place l3_reactive_power_import = 23
place l3_reactive_power_export = 24
place l3_voltage_rms = 25
place l3_current_rms = 26

-- All elements are different.
abbrev pub AreDistinct : List Bytes → Type 0
AreDistinct [] = Unit
AreDistinct (x ∷ xs) = All (λ y. y ≢ x) xs × AreDistinct xs

abbrev absent : Bytes → List Bytes → Bool
absent x [] = true
absent x (y ∷ ys) = not (equal y x) && absent x ys

abbrev distinct : List Bytes → Bool
distinct [] = true
distinct (x ∷ xs) = absent x xs && distinct xs

absent-All : (x : Bytes) (xs : List Bytes) → absent x xs ≡ true → All (λ y. y ≢ x) xs
absent-All x [] h = tt
absent-All x (y ∷ ys) h = ground (arith, equal_iff y x, absent-All x ys)

distinct-AreDistinct : (xs : List Bytes) → distinct xs ≡ true → AreDistinct xs
distinct-AreDistinct [] h = tt
distinct-AreDistinct (x ∷ xs) h = ground (arith, absent-All x xs, distinct-AreDistinct xs)

All-prefixed :
    (base x : Bytes) (xs : List Bytes)
    → All (λ y. y ≢ x) xs
    → All (λ y. y ≢ base ++ x) (map (◌++◌ base) xs)
All-prefixed base x [] h = tt
All-prefixed base x (y ∷ ys) h = (λ e. h.0 (append_left_inj base y x e), All-prefixed base x ys h.1)

AreDistinct-prefixed :
    (base : Bytes) (xs : List Bytes) → AreDistinct xs → AreDistinct (map (◌++◌ base) xs)
AreDistinct-prefixed base [] h = tt
AreDistinct-prefixed base (x ∷ xs) h =
    (All-prefixed base x xs h.0, AreDistinct-prefixed base xs h.1)

module _ (F : Floats) where
  open F use {Float, of_int}

  suffixes_differ :
      (d : HpData Float) → distinct (map (λ (f : Bytes × Float). f.0) (fields F d)) ≡ true
  unfolding fields equal
  suffixes_differ d = refl

  map-topics :
      (base : Bytes) (fs : List (Bytes × Float))
      → map (λ (m : Message). m.topic) (map (message_of F base) fs)
        ≡ map (◌++◌ base) (map (λ (f : Bytes × Float). f.0) fs)
  map-topics base [] = refl
  map-topics base (f ∷ fs) = ap (◌∷◌ (base ++ f.0)) (map-topics base fs)

  messages-AreDistinct :
      (base : Bytes) (d : HpData Float)
      → AreDistinct (map (λ (m : Message). m.topic) (messages F base d))
  messages-AreDistinct base d = subst AreDistinct (sym (map-topics base (fields F d))) (
      AreDistinct-prefixed base (map (λ (f : Bytes × Float). f.0) (fields F d))
        (distinct-AreDistinct (map (λ (f : Bytes × Float). f.0) (fields F d)) (suffixes_differ d)))

  -- A telegram's readings make 27 messages below a base topic. The first has the heartbeat; each
  -- member's value, with two decimals, stands under the member's own topic; no two topics are equal.
  pub messages-get_elem? :
      (base : Bytes) (d : HpData Float)
      → (length (messages F base d) ≡ 27)
        × (get_elem? (messages F base d) 0
            ≡ some (message_of F base (codes "/timestamp", of_int d.heartbeat)))
        × ((f : Field)
            → get_elem? (messages F base d) (place f)
              ≡ some (message_of F base (suffix f, get f d)))
        × AreDistinct (map (λ (m : Message). m.topic) (messages F base d))
  unfolding fields
  messages-get_elem? base d = (refl, refl, by_field, messages-AreDistinct base d)
    where
      by_field :
          (f : Field)
          → get_elem? (messages F base d) (place f) ≡ some (message_of F base (suffix f, get f d))
      by_field active_energy_import_total = refl
      by_field active_energy_export_total = refl
      by_field reactive_energy_import_total = refl
      by_field reactive_energy_export_total = refl
      by_field active_power_import = refl
      by_field active_power_export = refl
      by_field reactive_power_import = refl
      by_field reactive_power_export = refl
      by_field l1_active_power_import = refl
      by_field l1_active_power_export = refl
      by_field l1_reactive_power_import = refl
      by_field l1_reactive_power_export = refl
      by_field l1_voltage_rms = refl
      by_field l1_current_rms = refl
      by_field l2_active_power_import = refl
      by_field l2_active_power_export = refl
      by_field l2_reactive_power_import = refl
      by_field l2_reactive_power_export = refl
      by_field l2_voltage_rms = refl
      by_field l2_current_rms = refl
      by_field l3_active_power_import = refl
      by_field l3_active_power_export = refl
      by_field l3_reactive_power_import = refl
      by_field l3_reactive_power_export = refl
      by_field l3_voltage_rms = refl
      by_field l3_current_rms = refl
