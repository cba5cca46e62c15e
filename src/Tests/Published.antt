-- ===== src/Tests/Published.antt =====
-- What reaches the broker from the program on its default settings.
use mathlib.Core.Option
use hanport_data_parser.Base.Lists.{take}
use hanport_data_parser.Data.{Field}
use hanport_data_parser.Data
use hanport_data_parser.Main.Session.{reads_of, items_of}
use hanport_data_parser.Main.Published.Telegrams.{run-telegrams}
use hanport_data_parser.Parser.Render.{last_value}
use hanport_data_parser.Tests.Session.{both, first-IsBatch, second-IsBatch}
use hanport_data_parser.Base.{ℕ, List, [], ◌∷◌, ◌++◌, true, some, ◌≡◌, refl}
use hanport_data_parser.Base.Int.{pos}
use hanport_data_parser.Base.Numerals.{stoi}
use hanport_data_parser.Config.{get, find_key}
use hanport_data_parser.Main.{Program, begin, read_settings, run, set_up}
use hanport_data_parser.Main.Published.{accepted_rounds, IsPublished}
use hanport_data_parser.Main.Published.Rounds.{object_after, run-IsPublished}
use hanport_data_parser.Mqtt
use hanport_data_parser.Mqtt.{Message, HpMqttPub, set_credentials, set_last_will}
use hanport_data_parser.Mqtt.Outcome.{Logged}
use hanport_data_parser.Tests.Floats.{whole}
use hanport_data_parser.Tests.Main.{settings, library, reads}
use hanport_data_parser.Tests.Mqtt.{failing}

abbrev logged_publisher : HpMqttPub (ℕ × List Message)
logged_publisher = record {
  client_ = some (2, []);
  broker_address_ = settings.broker_address;
  client_id_ = settings.client_id;
  username_ = settings.user_name;
  password_ = settings.password;
  will_topic_ = settings.will_topic;
  will_message_ = settings.will_message;
  site_ = settings.site;
  device_id_ = settings.device_id;
  has_credentials_ = true;
  has_will_ = true;
}

abbrev logged : Program (ℕ × List Message) ℕ
logged = begin whole (Logged failing) library logged_publisher (pos 502)

logged_starts : set_up whole (Logged failing) library true settings ≡ some logged
unfolding set_up Mqtt.construct set_credentials set_last_will read_settings get find_key stoi
logged_starts = refl

run-IsPublished_example :
    (k : ℕ) × (logged.mqtt_publisher.client_ ≡ some (k, []))
    × IsPublished whole failing
        (settings.site ++ b'/' ∷ settings.device_id)
        (object_after whole failing settings.site settings.device_id reads logged)
        (accepted_rounds 3 reads)
        logged.mqtt_publisher
        k
        []
        (run whole (Logged failing) settings.site settings.device_id 3 reads logged).mqtt_publisher
run-IsPublished_example =
    run-IsPublished whole failing library true settings logged 3 reads logged_starts

run-telegrams_example :
    let object =
      object_after whole failing settings.site settings.device_id (reads_of both) logged in
    (first : ℕ) × (logged.mqtt_publisher.client_ ≡ some (first, []))
    × IsPublished whole failing
        (settings.site ++ b'/' ∷ settings.device_id)
        object
        (1 ∷ 2 ∷ [])
        logged.mqtt_publisher
        first
        []
        (run whole
          (Logged failing)
          settings.site
          settings.device_id
          2
          (reads_of both)
          logged).mqtt_publisher
    × ((k : ℕ) (f : Field)
        → Data.get f (object k)
          ≡ Option.get_or (last_value f (items_of (take k both))) (Data.get f logged.data_obj))
run-telegrams_example =
    run-telegrams whole failing library true settings logged both logged_starts
      (first-IsBatch, (second-IsBatch, tt))
