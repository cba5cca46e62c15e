-- ===== src/Main/Startup.antt =====
-- `main` from its arguments to its loop (src/main.cpp).
pub mod Ready
pub mod Settled
use hanport_data_parser.Base.{ℕ, Bool, true, false, List, [], Option, none, some, if◌then◌else◌}
use hanport_data_parser.Base.Bytes.{Bytes, codes}
use hanport_data_parser.Config.{Table, Section, load_from_file, get}
use hanport_data_parser.Floats.{Floats}
use hanport_data_parser.Main.{
  Command, run_with, exit_with, default_path, parse_args, Settings, read_settings, Program, set_up,
}
use hanport_data_parser.Modbus.{Library}
use hanport_data_parser.Mqtt.{Client}
use hanport_data_parser.Serial.Port.{Tty, Flags, Device, PortError, Port, open_port}

-- What `main` finds around it: the files that can be read, the paths at which a log can be opened,
-- the answers of libmodbus, the device of the serial port, and what the attributes in the memory of
-- the reader are before they are read.
pub record Surroundings (P : Type 0) : Type 0 where
  pub files : Bytes → Option Bytes
  pub can_log : Bytes → Bool
  pub library : Library
  pub device : P
  pub tty : Tty

-- `main` returns an exit code, ends by an exception that nothing catches, or gets to its loop.
pub data Startup (S P Float : Type 0) : Type 0 where
  exits : ℕ → Startup S P Float
  aborts : Startup S P Float
  loops : Settings → Program S Float → Port P → Startup S P Float

-- The path of the serial port in the configuration.
abbrev pub serial_path : Table Section → Bytes
serial_path cfg = get (codes "SERIALPORT") (codes "PATH") (codes "/dev/ttyAMA0") cfg

module _ (F : Floats) (C : Client) (T : Flags) (D : Device) where
  open F use {Float}
  open C use {State}

  -- `hpSerialRead` before `openPort`.
  abbrev pub unopened : Surroundings D.State → Port D.State
  unopened w = record { serial_fd = none; tty = w.tty; device = w.device }

  abbrev pub open_serial : Surroundings D.State → Table Section → Port D.State × Option PortError
  open_serial w cfg = open_port T D (serial_path cfg) (unopened w)

  abbrev pub or_abort :
      Settings → Port D.State → Option (Program State Float) → Startup State D.State Float
  or_abort c p none = aborts
  or_abort c p (some s) = loops c s p

  -- The set-up with these settings, with what `openPort` comes to.
  abbrev pub set_up_with :
      Surroundings D.State
      → Settings
      → Port D.State × Option PortError
      → Startup State D.State Float
  set_up_with w c (p, none) = or_abort c p (set_up F C w.library true c)
  set_up_with w c (p, some e) = or_abort c p (set_up F C w.library false c)

  abbrev pub log_path : Table Section → Bytes
  log_path cfg = get (codes "LOGGER") (codes "PATH") (codes "/var/log/hanport/hanport.log") cfg

  unfoldable pub with_config :
      Surroundings D.State → Table Section × Option Bytes → Startup State D.State Float
  with_config w (cfg, some e) = exits 1
  with_config w (cfg, none) =
      if w.can_log (log_path cfg)
      then set_up_with w (read_settings cfg) (open_serial w cfg)
      else aborts

  abbrev pub with_command : Surroundings D.State → Command → Startup State D.State Float
  with_command w (exit_with code) = exits code
  with_command w (run_with path) = with_config w (load_from_file path (w.files path) [])

  unfoldable pub start_main : Surroundings D.State → List Bytes → Startup State D.State Float
  unfolding with_config
  start_main w args = with_command w (parse_args args default_path)
