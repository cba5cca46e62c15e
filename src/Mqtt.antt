-- ===== src/Mqtt.antt =====
-- `HpMqttPub` (src/hpMqttPub.cpp, include/hpMqttPub.hpp): the readings as MQTT messages. The client
-- of the Paho library is a parameter, `Client`: its state, and what its calls do and return.
pub mod Fields
pub mod Outcome
use hanport_data_parser.Base.{
  ℕ, Bool, true, false, ◌&&◌, List, [], ◌∷◌, ◌++◌, Option, none, some, if◌then◌else◌,
}
use hanport_data_parser.Base.Bytes.{Bytes, codes}
use hanport_data_parser.Data.{HpData}
use hanport_data_parser.Floats.{Floats}

-- `mqtt::message`
pub record Message : Type 0 where
  pub topic : Bytes
  pub payload : Bytes
  pub qos : ℕ
  pub retained : Bool

-- `mqtt::connect_options`
pub record ConnectOptions : Type 0 where
  pub keep_alive_interval : ℕ
  pub clean_session : Bool
  pub automatic_reconnect : Bool
  pub credentials : Option (Bytes × Bytes)
  pub will : Option Message

-- `mqtt::async_client`. A call and the `wait` on its token are one operation; it returns false
-- where one of the two throws an `mqtt::exception`. `create` is the constructor, `none` if it throws.
-- `is_connected` gives a state, too, since the connection may have been lost or made again before.
pub record Client : Type 1 where
  pub State : Type 0
  pub create : Bytes → Bytes → Option State
  pub is_connected : State → State × Bool
  pub connect : ConnectOptions → State → State × Bool
  pub disconnect : State → State × Bool
  pub publish : Message → State → State × Bool

-- `S` is the type of the client's state.
pub record HpMqttPub (S : Type 0) : Type 0 where
  pub client_ : Option S
  pub broker_address_ : Bytes
  pub client_id_ : Bytes
  pub username_ : Bytes
  pub password_ : Bytes
  pub will_topic_ : Bytes
  pub will_message_ : Bytes
  pub site_ : Bytes
  pub device_id_ : Bytes
  pub has_credentials_ : Bool
  pub has_will_ : Bool

module _ {S : Type 0} where
  unfoldable build_base_topic : HpMqttPub S → Bytes
  build_base_topic p = p.site_ ++ b'/' ∷ p.device_id_

  unfoldable get_base_topic : HpMqttPub S → Bytes
  get_base_topic p = build_base_topic p

  unfoldable build_topic : Bytes → HpMqttPub S → Bytes
  build_topic measurement p = build_base_topic p ++ b'/' ∷ measurement

  -- `setCrendetials`
  unfoldable pub set_credentials : Bytes → Bytes → HpMqttPub S → HpMqttPub S
  set_credentials username password p = record p {
    username_ = username;
    password_ = password;
    has_credentials_ = true;
  }

  unfoldable pub set_last_will : Bytes → Bytes → HpMqttPub S → HpMqttPub S
  set_last_will topic message p = record p {
    will_topic_ = topic;
    will_message_ = message;
    has_will_ = true;
  }

  -- The options that `connect` sets.
  unfoldable pub options : HpMqttPub S → ConnectOptions
  options p = record {
    keep_alive_interval = 60;
    clean_session = true;
    automatic_reconnect = true;
    credentials = if p.has_credentials_ then some (p.username_, p.password_) else none;
    will =
        if p.has_will_
        then some
            (record { topic = p.will_topic_; payload = p.will_message_; qos = 1; retained = true })
        else none;
  }

module _ (F : Floats) where
  open F use {Float, of_int}

  -- What `publishIndividualFields` publishes, statement by statement: the end of the topic, and
  -- the value.
  unfoldable pub fields : HpData Float → List (Bytes × Float)
  fields d =
      (codes "/timestamp", of_int d.heartbeat)
      ∷ (codes "/energy/active_import_total", d.active_energy_import_total)
      ∷ (codes "/energy/active_export_total", d.active_energy_export_total)
      ∷ (codes "/energy/reactive_import_total", d.reactive_energy_import_total)
      ∷ (codes "/energy/reactive_export_total", d.reactive_energy_export_total)
      ∷ (codes "/power/active_import", d.active_power_import)
      ∷ (codes "/power/active_export", d.active_power_export)
      ∷ (codes "/power/reactive_import", d.reactive_power_import)
      ∷ (codes "/power/reactive_export", d.reactive_power_export)
      ∷ (codes "/l1/active_power_import", d.l1_active_power_import)
      ∷ (codes "/l1/active_power_export", d.l1_active_power_export)
      ∷ (codes "/l1/reactive_power_import", d.l1_reactive_power_import)
      ∷ (codes "/l1/reactive_power_export", d.l1_reactive_power_export)
      ∷ (codes "/l1/voltage_rms", d.l1_voltage_rms)
      ∷ (codes "/l1/current_rms", d.l1_current_rms)
      ∷ (codes "/l2/active_power_import", d.l2_active_power_import)
      ∷ (codes "/l2/active_power_export", d.l2_active_power_export)
      ∷ (codes "/l2/reactive_power_import", d.l2_reactive_power_import)
      ∷ (codes "/l2/reactive_power_export", d.l2_reactive_power_export)
      ∷ (codes "/l2/voltage_rms", d.l2_voltage_rms)
      ∷ (codes "/l2/current_rms", d.l2_current_rms)
      ∷ (codes "/l3/active_power_import", d.l3_active_power_import)
      ∷ (codes "/l3/active_power_export", d.l3_active_power_export)
      ∷ (codes "/l3/reactive_power_import", d.l3_reactive_power_import)
      ∷ (codes "/l3/reactive_power_export", d.l3_reactive_power_export)
      ∷ (codes "/l3/voltage_rms", d.l3_voltage_rms)
      ∷ (codes "/l3/current_rms", d.l3_current_rms)
      ∷ []

module _ (C : Client) where
  open C use {State}

  -- The constructor; `none` if it throws.
  unfoldable pub construct : Bytes → Bytes → Bytes → Bytes → Option (HpMqttPub State)
  construct broker_address client_id site device_id = elim (C.create broker_address client_id) [
    | none ↦ none
    | some c ↦ some (record {
      client_ = some c;
      broker_address_ = broker_address;
      client_id_ = client_id;
      username_ = [];
      password_ = [];
      will_topic_ = [];
      will_message_ = [];
      site_ = site;
      device_id_ = device_id;
      has_credentials_ = false;
      has_will_ = false;
    })
  ]

  -- A call of the client, with what it returns.
  abbrev pub called : HpMqttPub State → State × Bool → HpMqttPub State × Bool
  called p (c, r) = (record p { client_ = some c }, r)

  unfoldable pub connect : HpMqttPub State → HpMqttPub State × Bool
  connect p = elim p.client_ [ none ↦ (p, false) | some c ↦ called p (C.connect (options p) c) ]

  unfoldable pub is_connected : HpMqttPub State → HpMqttPub State × Bool
  is_connected p = elim p.client_ [ none ↦ (p, false) | some c ↦ called p (C.is_connected c) ]

  abbrev disconnect_if : HpMqttPub State → State × Bool → HpMqttPub State
  disconnect_if p (c, connected) = record p {
    client_ = some (if connected then (C.disconnect c).0 else c);
  }

  unfoldable pub disconnect : HpMqttPub State → HpMqttPub State
  disconnect p = elim p.client_ [ none ↦ p | some c ↦ disconnect_if p (C.is_connected c) ]

  -- The destructor.
  unfoldable destroy : HpMqttPub State → HpMqttPub State
  destroy p = let (p', connected) = is_connected p in if connected then disconnect p' else p'

  abbrev pub publish_if : HpMqttPub State → Message → State × Bool → HpMqttPub State × Bool
  publish_if p message (c, connected) =
      called p (if connected then C.publish message c else (c, false))

  unfoldable pub publish : Bytes → Bytes → ℕ → HpMqttPub State → HpMqttPub State × Bool
  publish topic payload qos p =
      let message : Message = record {
        topic = topic;
        payload = payload;
        qos = qos;
        retained = false;
      } in
      elim p.client_ [ none ↦ (p, false) | some c ↦ publish_if p message (C.is_connected c) ]

  module _ (F : Floats) where
    open F use {Float, fixed_2}

    unfoldable pub publish_float : Bytes → Float → HpMqttPub State → HpMqttPub State × Bool
    publish_float topic value p = publish topic (fixed_2 value) 1 p

    -- The statements `allSuccess &= publishFloat(...)`: each one publishes, whatever the ones before
    -- it returned.
    unfoldable pub publish_each :
        Bytes → List (Bytes × Float) → Bool → HpMqttPub State → HpMqttPub State × Bool
    publish_each base_topic [] all_success p = (p, all_success)
    publish_each base_topic ((suffix, value) ∷ rest) all_success p =
        let (p', r) = publish_float (base_topic ++ suffix) value p in
        publish_each base_topic rest (all_success && r) p'

    unfoldable pub publish_individual_fields :
        HpData Float → Bytes → HpMqttPub State → HpMqttPub State × Bool
    publish_individual_fields d base_topic p = publish_each base_topic (fields F d) true p

    -- The overload with a site and a device.
    unfoldable pub publish_all_data_at :
        HpData Float → Bytes → Bytes → HpMqttPub State → HpMqttPub State × Bool
    publish_all_data_at d site device_id p =
        publish_individual_fields d (site ++ b'/' ∷ device_id) p

    unfoldable publish_all_data : HpData Float → HpMqttPub State → HpMqttPub State × Bool
    publish_all_data d p = publish_individual_fields d (build_base_topic p) p

    unfoldable publish_measurement : Bytes → Float → HpMqttPub State → HpMqttPub State × Bool
    publish_measurement measurement_name value p =
        publish_float (build_topic measurement_name p) value p
