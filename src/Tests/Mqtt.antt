-- ===== src/Tests/Mqtt.antt =====
-- A client that fails after some messages, and a publisher over it.
use hanport_data_parser.Base.{
  ℕ, zero, suc, true, false, List, [], some, ◌≡◌, refl, map, length, get_elem?,
}
use hanport_data_parser.Base.Bytes.{codes}
use hanport_data_parser.Data.{HpData, Field, get, initial}
use hanport_data_parser.Mqtt.{
  Message, Client, HpMqttPub, publish, publish_float, publish_each, publish_individual_fields,
  publish_all_data_at, fields,
}
use hanport_data_parser.Mqtt.Fields.{AreDistinct, place, suffix, messages-get_elem?}
use hanport_data_parser.Mqtt.Outcome.{
  Logged, attempts, delivered, all, message_of, messages, publish_all_data_at-delivered,
}
use hanport_data_parser.Tests.Floats.{whole}

-- The state is the number of messages that are still accepted.
abbrev pub failing : Client
failing = record {
  State = ℕ;
  create = λ b i. some 2;
  is_connected = λ n. (n, true);
  connect = λ o n. (n, true);
  disconnect = λ n. (n, true);
  publish = λ m n. elim n [ zero ↦ (zero, false) | suc k ↦ (k, true) ];
}

abbrev publisher : HpMqttPub (ℕ × List Message)
publisher = record {
  client_ = some (2, []);
  broker_address_ = codes "broker";
  client_id_ = codes "id";
  username_ = [];
  password_ = [];
  will_topic_ = [];
  will_message_ = [];
  site_ = codes "s";
  device_id_ = codes "d";
  has_credentials_ = false;
  has_will_ = false;
}

abbrev sample : HpData ℕ
sample = initial 0

-- Two messages arrive, the others do not.
two_arrive :
    (publish_all_data_at (Logged failing) whole sample (codes "s") (codes "d") publisher).1 ≡ false
unfolding publish_all_data_at publish_individual_fields publish_each publish_float publish fields
two_arrive = refl

publish_all_data_at-delivered_example :
    let ms = messages whole (codes "s/d") sample in
    publish_all_data_at (Logged failing) whole sample (codes "s") (codes "d") publisher
    ≡ (delivered failing ms publisher 2 [], all (attempts failing ms 2).1)
publish_all_data_at-delivered_example =
    publish_all_data_at-delivered whole failing sample (codes "s") (codes "d") publisher 2 [] refl

messages-get_elem?_example :
    (length (messages whole (codes "s/d") sample) ≡ 27)
    × (get_elem? (messages whole (codes "s/d") sample) 0
        ≡ some (message_of whole (codes "s/d") (codes "/timestamp", whole.of_int sample.heartbeat)))
    × ((f : Field)
        → get_elem? (messages whole (codes "s/d") sample) (place f)
          ≡ some (message_of whole (codes "s/d") (suffix f, get f sample)))
    × AreDistinct (map (λ (m : Message). m.topic) (messages whole (codes "s/d") sample))
messages-get_elem?_example = messages-get_elem? whole (codes "s/d") sample
