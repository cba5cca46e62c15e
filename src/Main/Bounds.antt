-- ===== src/Main/Bounds.antt =====
-- The numbers of the program stay in their types, over any number of rounds.
use mathlib.Core.Path.{subst}
use hanport_data_parser.Base.{
  ℕ, zero, suc, ◌+◌, ◌^◌, ◌≤◌, ◌<◌, Bool, List, [], ◌∷◌, some, ◌≡◌, sym, inl, inr, arith,
}
use hanport_data_parser.Base.Bytes.{Bytes}
use hanport_data_parser.Base.Int.{ℤ, IsInt32, to_u16}
use hanport_data_parser.Base.Result.{Result-cases}
use hanport_data_parser.Floats.{Floats}
use hanport_data_parser.Main.{
  Settings, validate, Program, parse, tick, expose, handle, run, begin, set_up,
}
use hanport_data_parser.Main.Begun.{set_up-begin}
use hanport_data_parser.Main.Exposed.{ReadOutcome-cases, run-IsExposed}
use hanport_data_parser.Data.{HpData}
use hanport_data_parser.Modbus.{Impl, Library, set_from_hp_data}
use hanport_data_parser.Modbus.Bounds.{IsBounded, set_from_hp_data-IsBounded, start-fresh-IsBounded}
use hanport_data_parser.Mqtt
use hanport_data_parser.Mqtt.{Client}
use hanport_data_parser.Serial.{Read, hp_read}

module _ (F : Floats) where
  open F use {Float}

  -- A property of the server that every write of the readings keeps.
  module _ (C : Client) (P : Impl → Type 0)
      (keeps : (d : HpData Float) (m : Impl) → P m → P (set_from_hp_data F d 0 m)) where
    open C use {State}

    -- The server has the property, and the counter has made at most `n` steps.
    abbrev pub IsWithin : ℕ → Program State Float → Type 0
    IsWithin n s = P s.modbus_server × (s.heartbeat ≤ n)

    expose-IsWithin :
        (site device_id : Bytes) (n : ℕ) (s : Program State Float)
        → IsWithin n s
        → IsWithin n (expose F C site device_id s)
    unfolding expose
    expose-IsWithin site device_id n s w = (keeps s.data_obj s.modbus_server w.0, w.1)

    handle-IsWithin :
        (site device_id raw : Bytes) (n : ℕ) (s : Program State Float)
        → IsWithin n s
        → IsWithin n (handle F C site device_id raw s)
    unfolding handle
    handle-IsWithin site device_id [] n s w = expose-IsWithin site device_id n s w
    handle-IsWithin site device_id (b ∷ raw) n s w = elim (Result-cases (validate (b ∷ raw))) [
      | inl (lines, e) ↦
          rw (e, handle)
            (expose-IsWithin site device_id n (record s { data_obj = parse F lines s.data_obj }) w)
      | inr (x, e) ↦ rw (e, handle) w
    ]

    tick-IsWithin : (n : ℕ) (s : Program State Float) → IsWithin n s → IsWithin (n + 1) (tick F C s)
    unfolding tick
    tick-IsWithin n s w = (w.0, omega (arith, w.1))

    pub run-IsWithin :
        (site device_id : Bytes) (n k : ℕ) (reads : List Read) (s : Program State Float)
        → IsWithin k s
        → IsWithin (k + n) (run F C site device_id n reads s)
    unfolding run
    run-IsWithin site device_id zero k reads s w = (w.0, omega (arith, w.1))
    run-IsWithin site device_id (suc n) k reads s w = elim (ReadOutcome-cases (hp_read reads)) [
      | inl (r, e) ↦ rw (e, run) (weaken (tick F C s) (tick-IsWithin k s w))
      | inr (raw, rest, e) ↦
          let later =
            run-IsWithin site device_id n (k + 1) rest (handle F C site device_id raw (tick F C s))
              (handle-IsWithin site device_id raw (k + 1) (tick F C s) (tick-IsWithin k s w)) in
          rw (e, run) (later.0, omega (arith, later.1))
    ]
      where
        weaken : (t : Program State Float) → IsWithin (k + 1) t → IsWithin (k + suc n) t
        weaken t v = (v.0, omega (arith, v.1))

  module _ (C : Client) where
    open C use {State}

    begin-IsWithin :
        (l : Library) (p : Mqtt.HpMqttPub State) (port : ℤ)
        → IsWithin C IsBounded (set_from_hp_data-IsBounded F) 0 (begin F C l p port)
    unfolding begin
    begin-IsWithin l p port =
        (set_from_hp_data-IsBounded F _ _ (start-fresh-IsBounded l (to_u16 port)), omega arith)

    -- From the set-up on, whatever arrives at the port, the counter is after `n` rounds at most
    -- `n`, so that for fewer than 2 ^ 31 rounds the heartbeat is an `int` with no overflow. All
    -- registers ever set have addresses below 54, and they and what clients read are 16 bits wide.
    pub run-IsBounded :
        (l : Library) (opens : Bool) (c : Settings) (s : Program State Float) (n : ℕ)
        (reads : List Read)
        → set_up F C l opens c ≡ some s
        → n < 2 ^ 31
        → let s' = run F C c.site c.device_id n reads s in
          (s'.heartbeat ≤ n) × IsInt32 s'.data_obj.heartbeat × IsBounded s'.modbus_server
    run-IsBounded l opens c s n reads e h =
        let (p, port, same, success) = set_up-begin F C l opens c s e in
        let Within = IsWithin C IsBounded (set_from_hp_data-IsBounded F) 0 in
        let within : Within s = subst Within (sym same) (begin-IsWithin l p port) in
        let later =
          run-IsWithin C IsBounded (set_from_hp_data-IsBounded F) c.site c.device_id n 0 reads s
            within in
        let exposed = (run-IsExposed F C l opens c s n reads e).0 in
        (
          omega (arith, later.1),
          subst IsInt32 (sym exposed.counted) (omega (arith, later.1, h)),
          later.0,
        )
