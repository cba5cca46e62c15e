-- ===== src/Main/Startup/Settled.antt =====
-- What the command line and the configuration file come to.
use mathlib.Core.Option
use hanport_data_parser.Base.{List, [], Option, none, some, ◌≡◌, refl, ap, ◌∙◌, All, if◌then◌else◌}
use hanport_data_parser.Base.Bytes.{Bytes, codes}
use hanport_data_parser.Config.{load_from_file}
use hanport_data_parser.Config.Assigned.{Item, IsItem, content, last_value, get-load_from_file}
use hanport_data_parser.Floats.{Floats}
use hanport_data_parser.Main.{default_path, run_with, Settings, read_settings}
use hanport_data_parser.Main.Arguments.{Argument, IsArgument, words, last_path, parse_args-words}
use hanport_data_parser.Main.Startup.{
  Surroundings, Startup, exits, aborts, unopened, set_up_with, with_config, with_command,
  start_main,
}
use hanport_data_parser.Mqtt.{Client}
use hanport_data_parser.Serial.Port.{Flags, Device, open_port}

-- The last value of a key among the lines of a file, or a default.
abbrev pub setting : List Item → Bytes → Bytes → Bytes → Bytes
setting is section key default_val = Option.get_or (last_value section key [] is none) default_val

abbrev pub settings_of : List Item → Settings
settings_of is =
    let mqtt = codes "MQTT" in
    record {
      broker_address = setting is mqtt (codes "BROKER") (codes "localhost:1883");
      client_id = setting is mqtt (codes "CLIENT_ID") (codes "hanport_client");
      will_topic = setting is mqtt (codes "WILL_TOPIC") (codes "hanport_client/status");
      will_message = setting is mqtt (codes "WILL_MESSAGE") (codes "offline");
      site = setting is mqtt (codes "SITE_ID") (codes "bgs-office");
      device_id = setting is mqtt (codes "DEVICE_ID") (codes "hanport_meter_01");
      user_name = setting is mqtt (codes "USERNAME") (codes "mqtt_user");
      password = setting is mqtt (codes "PASSWORD") (codes "mqtt_password");
      port = setting is (codes "MODBUS") (codes "PORT") (codes "502");
    }

read_settings-load_from_file :
    (path : Bytes) (is : List Item)
    → All IsItem is
    → read_settings (load_from_file path (some (content is)) []).0 ≡ settings_of is
unfolding read_settings
read_settings-load_from_file path is h =
    let read = λ (section key default_val : Bytes).
      get-load_from_file path is [] section key default_val h in
    let mqtt = codes "MQTT" in
    rw (
      read mqtt (codes "BROKER") (codes "localhost:1883"),
      read mqtt (codes "CLIENT_ID") (codes "hanport_client"),
      read mqtt (codes "WILL_TOPIC") (codes "hanport_client/status"),
      read mqtt (codes "WILL_MESSAGE") (codes "offline"),
      read mqtt (codes "SITE_ID") (codes "bgs-office"),
      read mqtt (codes "DEVICE_ID") (codes "hanport_meter_01"),
      read mqtt (codes "USERNAME") (codes "mqtt_user"),
      read mqtt (codes "PASSWORD") (codes "mqtt_password"),
      read (codes "MODBUS") (codes "PORT") (codes "502"),
    )

module _ (F : Floats) (C : Client) (T : Flags) (D : Device) where
  open F use {Float}
  open C use {State}

  -- What `main` does with a readable file of these lines.
  abbrev pub started : Surroundings D.State → List Item → Startup State D.State Float
  started w is =
      if w.can_log
        (setting is (codes "LOGGER") (codes "PATH") (codes "/var/log/hanport/hanport.log"))
      then set_up_with F C T D w (settings_of is) (
          open_port T D (setting is (codes "SERIALPORT") (codes "PATH") (codes "/dev/ttyAMA0"))
            (unopened F C T D w))
      else aborts

  with_config-load_from_file :
      (w : Surroundings D.State) (path : Bytes) (is : List Item)
      → All IsItem is
      → with_config F C T D w (load_from_file path (some (content is)) []) ≡ started w is
  unfolding with_config load_from_file
  with_config-load_from_file w path is h = rw (
    read_settings-load_from_file path is h,
    get-load_from_file path is [] (codes "LOGGER") (codes "PATH")
        (codes "/var/log/hanport/hanport.log") h,
    get-load_from_file path is [] (codes "SERIALPORT") (codes "PATH") (codes "/dev/ttyAMA0") h,
  )

  start_main-path :
      (w : Surroundings D.State) (args : List Argument)
      → All IsArgument args
      → start_main F C T D w (words args)
        ≡ with_command F C T D w (run_with (last_path args default_path))
  unfolding start_main
  start_main-path w args h = ap (with_command F C T D w) (parse_args-words args default_path h)

  with_config-missing :
      (w : Surroundings D.State) (path : Bytes)
      → with_config F C T D w (load_from_file path none []) ≡ exits 1
  unfolding with_config load_from_file
  with_config-missing w path = refl

  -- A command line of options and unknown words makes `main` read the file of the last option, or
  -- the default one. If that file is missing, the exit code is 1; if it holds entries, headers and
  -- comments, then the log, the set-up and the opening of the serial port get the last value of each of their keys, or the
  -- default of `main`.
  pub start_main-words :
      (w : Surroundings D.State) (args : List Argument)
      → All IsArgument args
      → (w.files (last_path args default_path) ≡ none → start_main F C T D w (words args) ≡ exits 1)
        × ((is : List Item)
            → All IsItem is
            → w.files (last_path args default_path) ≡ some (content is)
            → start_main F C T D w (words args) ≡ started w is)
  start_main-words w args h =
      let path = last_path args default_path in
      (
        λ e.
            start_main-path w args h
            ∙ ap (λ (o : Option Bytes). with_config F C T D w (load_from_file path o [])) e
            ∙ with_config-missing w path,
        λ is k e.
            start_main-path w args h
            ∙ ap (λ (o : Option Bytes). with_config F C T D w (load_from_file path o [])) e
            ∙ with_config-load_from_file w path is k,
      )
