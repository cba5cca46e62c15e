-- ===== src/Main/Startup/Ready.antt =====
-- What holds once `main` has come to its loop.
use mathlib.Core.Path.{subst}
use hanport_data_parser.Base.{
  ℕ, ◌^◌, ◌≤◌, ◌<◌, Bool, true, false, List, [], Option, none, some, ◌≡◌, refl, sym, if◌then◌else◌,
}
use hanport_data_parser.Base.Bytes.{Bytes}
use hanport_data_parser.Base.Int.{IsInt32}
use hanport_data_parser.Config.{Table, Section, load_from_file}
use hanport_data_parser.Floats.{Floats}
use hanport_data_parser.Main.{
  Command, exit_with, run_with, default_path, parse_args, Settings, read_settings, Program, run,
  set_up,
}
use hanport_data_parser.Main.Bounds.{run-IsBounded}
use hanport_data_parser.Main.Begun.{set_up-begin}
use hanport_data_parser.Main.Published.{accepted_rounds, rounds_begun, last_round}
use hanport_data_parser.Main.Exposed.{IsExposed, run-IsExposed}
use hanport_data_parser.Main.Startup.{
  Surroundings, serial_path, unopened, aborts, loops, open_serial, or_abort, set_up_with, log_path,
  with_config, with_command, start_main,
}
use hanport_data_parser.Modbus.Bounds.{IsBounded}
use hanport_data_parser.Mqtt.{Client}
use hanport_data_parser.Serial.{Read}
use hanport_data_parser.Serial.Port.{Flags, Device, PortError, Port}
use hanport_data_parser.Serial.Port.Opened.{IsConfigured, Outcome, open_port-Outcome}

module _ (F : Floats) (C : Client) (T : Flags) (D : Device) where
  open F use {Float}
  open C use {State}

  -- `openPort` had success with the port of this configuration.
  abbrev pub IsOpened : Surroundings D.State → Table Section → Port D.State → Type 0
  IsOpened w cfg p = IsConfigured T D (D.open_path (serial_path cfg) w.device) true p

  module _ (w : Surroundings D.State) (c : Settings) (s : Program State Float)
      (p : Port D.State) where
    -- The settings are those of the configuration, and the set-up and `openPort` had success.
    abbrev IsBegun : Table Section → Type 0
    IsBegun cfg =
        (c ≡ read_settings cfg) × (set_up F C w.library true c ≡ some s) × IsOpened w cfg p

    or_abort_inj :
        (c' : Settings) (p' : Port D.State) (o : Option (Program State Float))
        → or_abort F C T D c' p' o ≡ loops c s p
        → (c' ≡ c) × (p' ≡ p) × (o ≡ some s)
    or_abort_inj c' p' none h = absurd cc
    or_abort_inj c' p' (some t) h = (cc, cc, cc)

    or_abort-IsBegun :
        (cfg : Table Section) (r : Port D.State × Option PortError)
        → Outcome T D (D.open_path (serial_path cfg) w.device) r.1 r.0
        → set_up_with F C T D w (read_settings cfg) r ≡ loops c s p
        → IsBegun cfg
    or_abort-IsBegun cfg (p', none) opened h =
        let c' = read_settings cfg in
        let (same_c, same_p, g) = or_abort_inj c' p' (set_up F C w.library true c') h in
        (
          sym same_c,
          subst (λ x. set_up F C w.library true x ≡ some s) same_c g,
          subst (IsOpened w cfg) same_p opened,
        )
    or_abort-IsBegun cfg (p', some e) opened h =
        let c' = read_settings cfg in
        let (same_c, same_p, g) = or_abort_inj c' p' (set_up F C w.library false c') h in
        let (q, port, same, success) = set_up-begin F C w.library false c' s g in absurd cc

    with_config-IsBegun :
        (r : Table Section × Option Bytes) → with_config F C T D w r ≡ loops c s p → IsBegun r.0
    unfolding with_config
    with_config-IsBegun (cfg, some e) h = absurd cc
    with_config-IsBegun (cfg, none) h = by_log (w.can_log (log_path F C T D cfg)) h
      where
        by_log :
            (b : Bool)
            → (if b
                then set_up_with F C T D w (read_settings cfg) (open_serial F C T D w cfg)
                else aborts)
              ≡ loops c s p
            → IsBegun cfg
        by_log true g =
            or_abort-IsBegun cfg (open_serial F C T D w cfg)
              (open_port-Outcome T D (serial_path cfg) (unopened F C T D w)) g
        by_log false g = absurd cc

    start_main-IsBegun :
        (args : List Bytes)
        → start_main F C T D w args ≡ loops c s p
        → (path : Bytes) × (parse_args args default_path ≡ run_with path)
          × IsBegun (load_from_file path (w.files path) []).0
    unfolding start_main
    start_main-IsBegun args h = by_command (parse_args args default_path) refl h
      where
        by_command :
            (k : Command)
            → parse_args args default_path ≡ k
            → with_command F C T D w k ≡ loops c s p
            → (path : Bytes) × (parse_args args default_path ≡ run_with path)
              × IsBegun (load_from_file path (w.files path) []).0
        by_command (exit_with code) e g = absurd cc
        by_command (run_with path) e g =
            (path, e, with_config-IsBegun (load_from_file path (w.files path) []) g)

  -- Whatever the arguments and the surroundings of the program are: if `main` comes to its loop,
  -- then the settings are those of the file that the arguments choose, and the serial port that
  -- the file names is open, and was given, once and without an error, the attributes that the setup
  -- makes of those read from it. After `n` rounds, fewer than 2 ^ 31, the heartbeat is the number
  -- of rounds begun, at most `n`; the registers hold the object's readings, with the number of
  -- the last round whose message was accepted as heartbeat, and are 16 bits wide; and as long as
  -- no client writes, the mapping that clients read has what the registers hold.
  pub start_main-IsReady :
      (w : Surroundings D.State) (args : List Bytes) (c : Settings) (s : Program State Float)
      (p : Port D.State) (n : ℕ) (reads : List Read)
      → start_main F C T D w args ≡ loops c s p
      → n < 2 ^ 31
      → let s' = run F C c.site c.device_id n reads s in
        ((path : Bytes) × (parse_args args default_path ≡ run_with path)
          × (c ≡ read_settings (load_from_file path (w.files path) []).0)
          × IsOpened w (load_from_file path (w.files path) []).0 p)
        × IsExposed F (last_round (accepted_rounds n reads)) s'
        × (s'.heartbeat ≡ rounds_begun n reads)
        × (s'.heartbeat ≤ n)
        × IsInt32 s'.data_obj.heartbeat
        × IsBounded s'.modbus_server
  start_main-IsReady w args c s p n reads e h =
      let (path, chosen, (same, g, opened)) = start_main-IsBegun w c s p args e in
      let (exposed, begun) = run-IsExposed F C w.library true c s n reads g in
      let (counted, fits, bounded) = run-IsBounded F C w.library true c s n reads g h in
      ((path, chosen, same, opened), exposed, begun, counted, fits, bounded)
