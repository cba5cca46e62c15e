-- ===== src/Main.antt =====
-- `main` (src/main.cpp): the command line, the start of the parts, and the rounds of the loop. What
-- it logs is left out; an uncaught exception, which ends the program, is `none`.
pub mod Arguments
pub mod Begun
pub mod Bounds
pub mod Connected
pub mod Published
pub mod Exposed
pub mod Received
pub mod Seen
pub mod Session
pub mod Silent
pub mod Startup
pub mod Telegram
use hanport_data_parser.Base.{
  ℕ, zero, suc, ◌+◌, Bool, true, false, ◌||◌, List, [], ◌∷◌, Option, none, some, ◌==◌,
  if◌then◌else◌,
}
use hanport_data_parser.Base.Bytes.{Bytes, codes, equal}
use hanport_data_parser.Base.Int.{ℤ, pos, to_u16}
use hanport_data_parser.Base.Numerals.{stoi}
use hanport_data_parser.Base.Result.{Result, ok, err, ◌>>=◌, crc_mismatch}
use hanport_data_parser.Config.{Table, Section, get}
use hanport_data_parser.Data.{HpData, initial}
use hanport_data_parser.Floats.{Floats}
use hanport_data_parser.Modbus.{Impl, Library, fresh, start, set_from_hp_data}
use hanport_data_parser.Mqtt.{
  Client, HpMqttPub, connect, set_credentials, set_last_will, publish_all_data_at,
}
use hanport_data_parser.Mqtt
use hanport_data_parser.Parser.{Parsed, finished, thrown, parse_message}
use hanport_data_parser.Parser
use hanport_data_parser.Serial.{Read, ReadOutcome, returned, waiting, hp_read}
use hanport_data_parser.Validator.{
  HanportMessageValidator, construct, message_to_string_arr, get_calculated_crc,
  get_transmitted_crc,
}

-- The command line: a configuration file to run with, or an exit code.
pub data Command : Type 0 where
  run_with : Bytes → Command
  exit_with : ℕ → Command

abbrev pub is_config : Bytes → Bool
is_config a = equal a (codes "--config") || equal a (codes "-c")

abbrev pub is_help : Bytes → Bool
is_help a = equal a (codes "--help") || equal a (codes "-h")

-- The loop over the arguments behind the program's name. An unknown argument is passed over.
unfoldable pub parse_args : List Bytes → Bytes → Command
parse_args [] config_file_path = run_with config_file_path
parse_args (a ∷ []) config_file_path =
    if is_config a
    then exit_with 1
    else if is_help a
    then exit_with 0
    else run_with config_file_path
parse_args (a ∷ b ∷ rest) config_file_path =
    let with_value = parse_args rest b in
    let next = parse_args (b ∷ rest) config_file_path in
    if is_config a then with_value else if is_help a then exit_with 0 else next

abbrev pub default_path : Bytes
default_path = codes "configs/bgs-lokal.ini"

-- What `main` reads from the configuration.
pub record Settings : Type 0 where
  pub broker_address : Bytes
  pub client_id : Bytes
  pub will_topic : Bytes
  pub will_message : Bytes
  pub site : Bytes
  pub device_id : Bytes
  pub user_name : Bytes
  pub password : Bytes
  pub port : Bytes

unfoldable pub read_settings : Table Section → Settings
read_settings cfg =
    let mqtt = codes "MQTT" in
    record {
      broker_address = get mqtt (codes "BROKER") (codes "localhost:1883") cfg;
      client_id = get mqtt (codes "CLIENT_ID") (codes "hanport_client") cfg;
      will_topic = get mqtt (codes "WILL_TOPIC") (codes "hanport_client/status") cfg;
      will_message = get mqtt (codes "WILL_MESSAGE") (codes "offline") cfg;
      site = get mqtt (codes "SITE_ID") (codes "bgs-office") cfg;
      device_id = get mqtt (codes "DEVICE_ID") (codes "hanport_meter_01") cfg;
      user_name = get mqtt (codes "USERNAME") (codes "mqtt_user") cfg;
      password = get mqtt (codes "PASSWORD") (codes "mqtt_password") cfg;
      port = get (codes "MODBUS") (codes "PORT") (codes "502") cfg;
    }

-- The first `try` block of a round.
pub validate : Bytes → Result (List Bytes)
validate raw = do
  v ← construct raw
  (if get_calculated_crc v == get_transmitted_crc v
      then message_to_string_arr v
      else err crc_mismatch)

module _ {Float : Type 0} where
  -- What an exception leaves in the object is kept.
  abbrev pub kept : Parsed (HpData Float) → HpData Float
  kept (finished d) = d
  kept (thrown e d) = d

-- The variables of `main` that the loop changes. The source's `heartbeat` is an `int`, whose
-- overflow after 2 ^ 31 - 1 rounds C++ leaves undefined; here it goes on counting.
pub record Program (S Float : Type 0) : Type 0 where
  pub data_obj : HpData Float
  pub heartbeat : ℕ
  pub mqtt_publisher : HpMqttPub S
  pub modbus_server : Impl

module _ (F : Floats) where
  open F use {Float, of_int}

  -- The second `try` block of a round.
  pub parse : List Bytes → HpData Float → HpData Float
  parse message_array d = elim (Parser.construct message_array) [
    | err e ↦ d
    | ok lines ↦ kept (parse_message F lines d)
  ]

  module _ (C : Client) where
    open C use {State}

    -- The beginning of a round, up to the call of `hpRead`.
    pub tick : Program State Float → Program State Float
    tick s =
        let next = s.heartbeat + 1 in
        record s { heartbeat = next; data_obj = record s.data_obj { heartbeat = pos next } }

    -- The end of a round: the readings are published and written to the registers.
    pub expose : Bytes → Bytes → Program State Float → Program State Float
    expose site device_id s = record s {
      mqtt_publisher = (publish_all_data_at C F s.data_obj site device_id s.mqtt_publisher).0;
      modbus_server = set_from_hp_data F s.data_obj 0 s.modbus_server;
    }

    -- The rest of a round, with what `hpRead` returned. A rejected message ends it by `continue`.
    pub handle : Bytes → Bytes → Bytes → Program State Float → Program State Float
    unfolding expose parse
    handle site device_id [] s = expose site device_id s
    handle site device_id (b ∷ raw) s = elim (validate (b ∷ raw)) [
      | err e ↦ s
      | ok message_array ↦
          expose site device_id (record s { data_obj = parse message_array s.data_obj })
    ]

    -- The state after at most `n` rounds of the loop, or while `hpRead` waits for more bytes. The
    -- server's thread is left out: `mb_mapping` is as long as no client writes registers, which the
    -- program never reads back.
    pub run : Bytes → Bytes → ℕ → List Read → Program State Float → Program State Float
    unfolding tick handle
    run site device_id zero reads s = s
    run site device_id (suc n) reads s = elim (hp_read reads) [
      | waiting r ↦ tick s
      | returned raw rest ↦ run site device_id n rest (handle site device_id raw (tick s))
    ]

    -- The variables at the start of the loop, with a publisher that was set up and the port of the
    -- Modbus server. That a connection or a start fails is logged only.
    pub begin : Library → HpMqttPub State → ℤ → Program State Float
    begin l p port =
        let d = initial (of_int (pos 0)) in
        record {
          data_obj = d;
          heartbeat = 0;
          mqtt_publisher = (connect C p).0;
          modbus_server = set_from_hp_data F d 0 (start l (fresh (to_u16 port))).0;
        }

    -- `main` up to its loop; `opens` says whether the serial port can be opened.
    unfoldable pub set_up : Library → Bool → Settings → Option (Program State Float)
    set_up l opens c = elim (Mqtt.construct C c.broker_address c.client_id c.site c.device_id) [
      | none ↦ none
      | some p ↦ (elim (stoi 10 c.port) [
        | none ↦ none
        | some port ↦
            let q = set_credentials c.user_name c.password p in
            let q' = set_last_will c.will_topic c.will_message q in
            if opens then some (begin l q' port) else none
      ])
    ]
