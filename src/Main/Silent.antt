-- ===== src/Main/Silent.antt =====
-- The loop with no telegram at the serial port.
use hanport_data_parser.Base.{ℕ, suc, ◌+◌, List, ◌≡◌, refl, inl, inr}
use hanport_data_parser.Base.Bytes.{Bytes}
use hanport_data_parser.Floats.{Floats}
use hanport_data_parser.Main.{Program, tick, run}
use hanport_data_parser.Main.Exposed.{ReadOutcome-cases}
use hanport_data_parser.Mqtt.{Client}
use hanport_data_parser.Serial.{Read, hp_read}
use hanport_data_parser.Serial.Resync.{HoldsFrame, hp_read-Returns_iff}
use hanport_data_parser.Serial.Scan.{stream}

module _ (F : Floats) (C : Client) where
  open F use {Float}
  open C use {State}

  run-waiting :
      (site device_id : Bytes) (n : ℕ) (reads : List Read) (s : Program State Float)
      → ¬ HoldsFrame (stream reads)
      → run F C site device_id (suc n) reads s ≡ tick F C s
  unfolding run
  run-waiting site device_id n reads s silent = elim (ReadOutcome-cases (hp_read reads)) [
    | inl (r, e) ↦ rw (e, run) refl
    | inr (raw, rest, e) ↦ absurd (silent ((hp_read-Returns_iff reads).0 (raw, rest, e)))
  ]

  -- While the bytes at the serial port hold no telegram, the loop does not get beyond its first
  -- round, however many are given: the heartbeat is counted once, and neither the Modbus server nor
  -- the publisher is given anything.
  pub run-silent :
      (site device_id : Bytes) (n : ℕ) (reads : List Read) (s : Program State Float)
      → ¬ HoldsFrame (stream reads)
      → let s' = run F C site device_id (suc n) reads s in
        (s'.heartbeat ≡ s.heartbeat + 1)
        × (s'.modbus_server ≡ s.modbus_server)
        × (s'.mqtt_publisher ≡ s.mqtt_publisher)
  unfolding tick
  run-silent site device_id n reads s silent =
      rw (run-waiting site device_id n reads s silent) (refl, refl, refl)
