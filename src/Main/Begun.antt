-- ===== src/Main/Begun.antt =====
-- What the set-up of `main` has done if it comes to the loop.
use hanport_data_parser.Base.{
  Bool, true, false, Option, none, some, ◌≡◌, ◌≢◌, refl, inl, inr, Option-cases, if◌then◌else◌,
}
use hanport_data_parser.Base.Int.{ℤ}
use hanport_data_parser.Base.Numerals.{stoi}
use hanport_data_parser.Floats.{Floats}
use hanport_data_parser.Main.{Settings, Program, begin, set_up}
use hanport_data_parser.Modbus.{Library}
use hanport_data_parser.Mqtt
use hanport_data_parser.Mqtt.{Client, HpMqttPub, set_credentials, set_last_will}

module _ (F : Floats) (C : Client) where
  open F use {Float}
  open C use {State}

  -- The publisher as it is constructed with the settings.
  abbrev pub constructed : Settings → Option (HpMqttPub State)
  constructed c = Mqtt.construct C c.broker_address c.client_id c.site c.device_id

  abbrev pub with_settings : Settings → HpMqttPub State → HpMqttPub State
  with_settings c p =
      set_last_will c.will_topic c.will_message (set_credentials c.user_name c.password p)

  -- The publisher was constructed, the port of the server is a number, and the serial port could be
  -- opened.
  pub record IsSetUp (l : Library) (opens : Bool) (c : Settings) (s : Program State Float)
      : Type 0 where
    pub publisher : HpMqttPub State
    pub made : constructed c ≡ some publisher
    pub port : ℤ
    pub number : stoi 10 c.port ≡ some port
    pub same : s ≡ begin F C l (with_settings c publisher) port
    pub success : opens ≡ true

  pub set_up-IsSetUp :
      (l : Library) (opens : Bool) (c : Settings) (s : Program State Float)
      → set_up F C l opens c ≡ some s
      → IsSetUp l opens c s
  unfolding set_up
  set_up-IsSetUp l opens c s e = elim (Option-cases (constructed c)) [
    | inl a ↦ absurd (none_ne s (rw (a, set_up) at e))
    | inr (p, a) ↦ (elim (Option-cases (stoi 10 c.port)) [
      | inl b ↦ absurd (none_ne s (rw (a, b, set_up) at e))
      | inr (port, b) ↦
          let (same, success) =
            opened opens (begin F C l (with_settings c p) port) s (rw (a, b, set_up) at e) in
          record {
            publisher = p;
            made = a;
            port = port;
            number = b;
            same = same;
            success = success;
          }
    ])
  ]
    where
      none_ne : (t : Program State Float) → none ≢ some t
      none_ne t h = cc

      opened :
          (b : Bool) (t u : Program State Float)
          → (if b then some t else none) ≡ some u
          → (u ≡ t) × (b ≡ true)
      opened true t u f = (cc, refl)
      opened false t u f = absurd (none_ne u f)

  pub set_up-begin :
      (l : Library) (opens : Bool) (c : Settings) (s : Program State Float)
      → set_up F C l opens c ≡ some s
      → (p : HpMqttPub State) × (port : ℤ) × (s ≡ begin F C l p port) × (opens ≡ true)
  set_up-begin l opens c s e =
      let h = set_up-IsSetUp l opens c s e in
      (with_settings c h.publisher, h.port, h.same, h.success)
