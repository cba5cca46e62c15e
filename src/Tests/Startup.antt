-- ===== src/Tests/Startup.antt =====
-- The start of the program with a small configuration file.
use hanport_data_parser.Base.{
  ℕ, ◌≤◌, true, List, [], ◌∷◌, none, some, ◌≡◌, refl, All, arith, if◌then◌else◌,
}
use hanport_data_parser.Base.Bytes.{Bytes, codes, equal, find}
use hanport_data_parser.Base.Int.{pos, IsInt32}
use hanport_data_parser.Base.Numerals.{stoi}
use hanport_data_parser.Config.{
  load_from_file, read_lines, read_trimmed, read_entry, strip_comment, store, trim, trim_end,
  assign_key, find_key, get,
}
use hanport_data_parser.Config.Assigned.{Item, entry, header, IsItem, content}
use hanport_data_parser.Main.{
  run_with, Settings, Program, begin, run, default_path, parse_args, read_settings, set_up,
}
use hanport_data_parser.Main.Arguments.{Argument, config, words, last_path}
use hanport_data_parser.Main.Published.{accepted_rounds, rounds_begun, last_round}
use hanport_data_parser.Main.Exposed.{IsExposed}
use hanport_data_parser.Main.Startup.{Surroundings, exits, loops, unopened, start_main, with_config}
use hanport_data_parser.Main.Startup.Ready.{IsOpened, start_main-IsReady}
use hanport_data_parser.Main.Startup.Settled.{started, start_main-words}
use hanport_data_parser.Modbus.Bounds.{IsBounded}
use hanport_data_parser.Mqtt.{set_credentials, set_last_will}
use hanport_data_parser.Mqtt
use hanport_data_parser.Serial.Port.{Tty, Port, setup_port, open_port}
use hanport_data_parser.Validator.{split_lines}
use hanport_data_parser.Tests.Floats.{whole}
use hanport_data_parser.Tests.Main.{library, publisher, reads, settings}
use hanport_data_parser.Tests.Mqtt.{failing}
use hanport_data_parser.Tests.Port.{linux, terminal, cooked}

abbrev items : List Item
items =
    header [] (codes "MODBUS") [] ∷ entry (codes "PORT ") (codes " 1502 ") (codes "# other") ∷ []

-- One file, and a port that can be opened.
abbrev here : Surroundings Tty
here = record {
  files = λ path. if equal path (codes "a.ini") then some (content items) else none;
  can_log = λ path. true;
  library = library;
  device = cooked;
  tty = cooked;
}

abbrev arguments : List Argument
arguments = config (codes "-c") (codes "a.ini") ∷ []

start_main-words_example :
    (here.files (last_path arguments default_path) ≡ none
      → start_main whole failing linux terminal here (words arguments) ≡ exits 1)
    × ((is : List Item)
        → All IsItem is
        → here.files (last_path arguments default_path) ≡ some (content is)
        → start_main whole failing linux terminal here (words arguments)
          ≡ started whole failing linux terminal here is)
unfolding equal
start_main-words_example = start_main-words whole failing linux terminal here arguments (refl, tt)

abbrev settings_read : Settings
settings_read = record settings { port = codes "1502" }

abbrev begun : Program ℕ ℕ
begun = begin whole failing library publisher (pos 1502)

abbrev port : Port Tty
port =
    (open_port linux terminal (codes "/dev/ttyAMA0") (unopened whole failing linux terminal here)).0

gets_to_loop :
    start_main whole failing linux terminal here (words arguments) ≡ loops settings_read begun port
unfolding start_main with_config load_from_file read_lines read_trimmed read_entry strip_comment
    store trim trim_end assign_key find find_key equal get read_settings set_up Mqtt.construct
    set_credentials set_last_will stoi parse_args open_port setup_port split_lines
gets_to_loop = refl

start_main-IsReady_example :
    let s = run whole failing settings_read.site settings_read.device_id 2 reads begun in
    ((path : Bytes) × (parse_args (words arguments) default_path ≡ run_with path)
      × (settings_read ≡ read_settings (load_from_file path (here.files path) []).0)
      × IsOpened whole failing linux terminal here
          (load_from_file path (here.files path) []).0
          port)
    × IsExposed whole (last_round (accepted_rounds 2 reads)) s
    × (s.heartbeat ≡ rounds_begun 2 reads)
    × (s.heartbeat ≤ 2)
    × IsInt32 s.data_obj.heartbeat
    × IsBounded s.modbus_server
start_main-IsReady_example =
    start_main-IsReady whole failing linux terminal here (words arguments) settings_read begun port
      2 reads gets_to_loop (omega arith)
