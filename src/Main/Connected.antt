-- ===== src/Main/Connected.antt =====
-- What the MQTT client is given before the loop begins.
use mathlib.Core.Path.{subst}
use hanport_data_parser.Base.{
  [], Bool, true, false, none, some, ◌≡◌, ◌≢◌, refl, sym, inl, inr, Option-cases,
}
use hanport_data_parser.Floats.{Floats}
use hanport_data_parser.Main.{Settings, Program, begin, set_up}
use hanport_data_parser.Main.Begun.{constructed, with_settings, set_up-IsSetUp}
use hanport_data_parser.Modbus.{Library}
use hanport_data_parser.Mqtt
use hanport_data_parser.Mqtt.{
  Message, ConnectOptions, Client, HpMqttPub, connect, set_credentials, set_last_will, options,
}

-- The settings as options of the connection.
abbrev pub options_of : Settings → ConnectOptions
options_of c = record {
  keep_alive_interval = 60;
  clean_session = true;
  automatic_reconnect = true;
  credentials = some (c.user_name, c.password);
  will = some (record { topic = c.will_topic; payload = c.will_message; qos = 1; retained = true });
}

module _ (C : Client) where
  open C use {State}

  -- A publisher whose client was created with these settings and asked once to connect.
  pub record IsAsked (c : Settings) (p : HpMqttPub State) : Type 0 where
    pub client : State
    pub created : C.create c.broker_address c.client_id ≡ some client
    pub asked : p.client_ ≡ some (C.connect (options_of c) client).0
    pub site_is : p.site_ ≡ c.site
    pub device_id_is : p.device_id_ ≡ c.device_id

module _ (F : Floats) (C : Client) where
  open F use {Float}
  open C use {State}

  -- The publisher that the constructor gives for a client.
  abbrev made_with : Settings → State → HpMqttPub State
  made_with c k = record {
    client_ = some k;
    broker_address_ = c.broker_address;
    client_id_ = c.client_id;
    username_ = [];
    password_ = [];
    will_topic_ = [];
    will_message_ = [];
    site_ = c.site;
    device_id_ = c.device_id;
    has_credentials_ = false;
    has_will_ = false;
  }

  made_with-IsAsked :
      (c : Settings) (k : State)
      → C.create c.broker_address c.client_id ≡ some k
      → IsAsked C c (connect C (with_settings F C c (made_with c k))).0
  unfolding connect set_credentials set_last_will options
  made_with-IsAsked c k h = record {
    client = k;
    created = h;
    asked = refl;
    site_is = refl;
    device_id_is = refl;
  }

  constructed-IsAsked :
      (c : Settings) (p : HpMqttPub State)
      → constructed F C c ≡ some p
      → IsAsked C c (connect C (with_settings F C c p)).0
  unfolding Mqtt.construct
  constructed-IsAsked c p e = elim (Option-cases (C.create c.broker_address c.client_id)) [
    | inl h ↦ absurd (none_ne p (rw (h, Mqtt.construct) at e))
    | inr (k, h) ↦
        subst (λ (q : HpMqttPub State). IsAsked C c (connect C (with_settings F C c q)).0)
          (of_some (made_with c k) p (rw (h, Mqtt.construct) at e)) (made_with-IsAsked c k h)
  ]
    where
      none_ne : (q : HpMqttPub State) → none ≢ some q
      none_ne q f = cc

      of_some : (q r : HpMqttPub State) → some q ≡ some r → q ≡ r
      of_some q r f = cc

  -- If `main` comes to its loop, then the client that was created for the broker and the identity of
  -- the settings has been asked once to connect, with the credentials and the last will of the
  -- settings, and the publisher has the site and the device of the settings. That holds whether
  -- the connection had success or not.
  pub set_up-IsAsked :
      (l : Library) (opens : Bool) (c : Settings) (s : Program State Float)
      → set_up F C l opens c ≡ some s
      → IsAsked C c s.mqtt_publisher
  unfolding begin
  set_up-IsAsked l opens c s e =
      let h = set_up-IsSetUp F C l opens c s e in
      subst (λ (t : Program State Float). IsAsked C c t.mqtt_publisher) (sym h.same)
        (constructed-IsAsked c h.publisher h.made)
