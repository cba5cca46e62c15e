-- ===== src/Tests/Main.antt =====
-- The program on its default settings, with telegrams at the port.
use hanport_data_parser.Base.{
  ℕ, Bool, true, false, List, [], ◌∷◌, ◌++◌, some, ◌≡◌, refl, inl, arith, All,
}
use hanport_data_parser.Base.Bytes.{codes, equal, find, contains}
use hanport_data_parser.Base.Numerals.{stoi}
use hanport_data_parser.Base.Int.{pos}
use hanport_data_parser.Config.{get, find_key}
use hanport_data_parser.Data.{active_power_import, l3_reactive_power_export}
use hanport_data_parser.Main.{
  Settings, read_settings, run_with, exit_with, default_path, parse_args, Program, begin, handle,
  run, set_up,
}
use hanport_data_parser.Main.Arguments.{Argument, config, unknown}
use hanport_data_parser.Main.Telegram.{body_of, IsRead, handle-telegram, handle-telegram_corrupted}
use hanport_data_parser.Main.Published.{accepted_rounds, last_round}
use hanport_data_parser.Main.Seen.{Fits, IsSeen, run-IsSeen}
use hanport_data_parser.Modbus.{Library, milli}
use hanport_data_parser.Modbus.Layout.{sent_as_float}
use hanport_data_parser.Mqtt.{HpMqttPub, construct, set_credentials, set_last_will}
use hanport_data_parser.Mqtt
use hanport_data_parser.Parser.{obis_code_of}
use hanport_data_parser.Parser.Render.{Item, reading, other, IsItem}
use hanport_data_parser.Serial.{start, Read, chunk, nothing, hp_read}
use hanport_data_parser.Serial.Frame.{in_body}
use hanport_data_parser.Serial.Scan.{scan, pending}
use hanport_data_parser.Validator.{strip_line_ends}
use hanport_data_parser.Validator.Telegram.{telegram, with_digits, checksum}
use hanport_data_parser.Tests.Floats.{whole, whole-IsLawful}
use hanport_data_parser.Tests.Mqtt.{failing}

arguments :
    (parse_args
        (codes "-v" ∷ codes "-c" ∷ codes "a" ∷ codes "--config" ∷ codes "b" ∷ [])
        default_path
      ≡ run_with (codes "b"))
    × (parse_args (codes "-c" ∷ []) default_path ≡ exit_with 1)
    × (parse_args (codes "-c" ∷ codes "-h" ∷ codes "-h" ∷ []) default_path ≡ exit_with 0)
unfolding parse_args equal
arguments = (refl, refl, refl)

abbrev pub settings : Settings
settings = read_settings []

abbrev pub library : Library
library = record { modbus_new_tcp = true; modbus_mapping_new = true; modbus_tcp_listen = some 3 }

abbrev pub publisher : HpMqttPub ℕ
publisher = record {
  client_ = some 2;
  broker_address_ = settings.broker_address;
  client_id_ = settings.client_id;
  username_ = settings.user_name;
  password_ = settings.password;
  will_topic_ = settings.will_topic;
  will_message_ = settings.will_message;
  site_ = settings.site;
  device_id_ = settings.device_id;
  has_credentials_ = true;
  has_will_ = true;
}

abbrev pub started : Program ℕ ℕ
started = begin whole failing library publisher (pos 502)

pub starts : set_up whole failing library true settings ≡ some started
unfolding set_up Mqtt.construct set_credentials set_last_will read_settings get find_key stoi
starts = refl

abbrev pub items : List (Item ℕ)
items =
    other (codes "/KFM5\r")
    ∷ reading (codes "1-0:1.7.0") (codes "3") (codes "kW)\r") active_power_import 3
    ∷ reading (codes "1-0:63.7.0") (codes "7") (codes "kVAr)\r") l3_reactive_power_export 7
    ∷ []

abbrev pub reads : List Read
reads = chunk (telegram (body_of items) (codes "\r\n")) ∷ nothing ∷ []

pub items_are : All (IsItem whole) items
unfolding find contains obis_code_of equal stoi
items_are = (
  inl refl,
  ((refl, omega arith, omega arith, refl), ((refl, omega arith, omega arith, refl), tt)),
)

handle-telegram_example :
    IsRead whole failing (codes "s") (codes "d") items started (
      handle whole failing
        (codes "s")
        (codes "d")
        (telegram (body_of items) (codes "\r\n"))
        started)
unfolding strip_line_ends
handle-telegram_example =
    handle-telegram whole failing (codes "s") (codes "d") items (codes "\r\n") started items_are
      (omega arith) (omega arith) (omega arith) refl

handle-telegram_corrupted_example :
    handle whole failing
      (codes "s")
      (codes "d")
      (with_digits
        (codes "/(" ++ b'3' ∷ codes "*kW)")
        (checksum (codes "/(" ++ b'1' ∷ codes "*kW)"))
        [])
      started
    ≡ started
unfolding strip_line_ends
handle-telegram_corrupted_example =
    handle-telegram_corrupted whole failing (codes "s") (codes "d") (codes "/(") (codes "*kW)") []
      b'1' b'3' started (omega arith) (omega arith) (omega arith) (omega arith) refl

abbrev arguments_given : List Argument
arguments_given = unknown (codes "-v") ∷ config (codes "-c") (codes "--help") ∷ []

pub part_pending : scan start (codes "x/q") ≡ pending (in_body (codes "q"))
unfolding scan hp_read
part_pending = refl

whole-Fits : (as_float : Bool) (v : ℕ) → Fits whole as_float v
unfolding milli
whole-Fits true v = tt
whole-Fits false v = omega arith

run-IsSeen_example :
    let later = run whole failing settings.site settings.device_id 3 reads started in
    (tab : List ℕ) × (later.modbus_server.mb_mapping ≡ some tab)
    × IsSeen whole (last_round (accepted_rounds 3 reads)) later.data_obj tab
run-IsSeen_example =
    run-IsSeen whole failing library 3 refl refl refl whole-IsLawful true settings started 3 reads
      starts (omega arith) (λ f. whole-Fits (sent_as_float f) _)
