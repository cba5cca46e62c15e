-- ===== src/Main/Published/Rounds.antt =====
-- What the rounds of the loop publish, whatever arrives at the serial port.
use mathlib.Core.Path.{subst}
use hanport_data_parser.Base.{
  ℕ, zero, suc, Bool, true, false, List, [], ◌∷◌, ◌++◌, Option, none, some, ◌≡◌, ◌≢◌, refl, sym, ap,
  ◌∙◌, inl, inr,
}
use hanport_data_parser.Base.Bytes.{Bytes}
use hanport_data_parser.Base.Result.{Result-cases}
use hanport_data_parser.Data.{HpData}
use hanport_data_parser.Floats.{Floats}
use hanport_data_parser.Main.{Settings, Program, validate, parse, tick, expose, handle, run, set_up}
use hanport_data_parser.Main.Connected.{options_of, IsAsked, set_up-IsAsked}
use hanport_data_parser.Main.Exposed.{ReadOutcome-cases}
use hanport_data_parser.Main.Published.{
  accepts, before_them, accepted_rounds, IsPublished, still, IsPublished-skip, IsPublished-cons,
}
use hanport_data_parser.Main.Received.{run-returned}
use hanport_data_parser.Modbus.{Library}
use hanport_data_parser.Mqtt.{Message, Client, HpMqttPub}
use hanport_data_parser.Mqtt.Outcome.{
  Logged, selected, attempts, delivered, messages, publish_all_data_at-delivered,
}
use hanport_data_parser.Serial.{Read, hp_read}

-- A client that was created with an empty log.
created-log :
    {S : Type 0} (o : Option S) (k : S × List Message)
    → (elim o as (λ x. Option (S × List Message)) [ none ↦ none | some s ↦ some (s, []) ]) ≡ some k
    → k.1 ≡ []
created-log {S = S} none k e = absurd (none_ne k e)
  where
    none_ne : (k : S × List Message) → none ≢ some k
    none_ne k h = cc
created-log {S = S} (some s) k e = ap (λ (x : S × List Message). x.1) (same k (s, []) e)
  where
    same : (k k' : S × List Message) → some k' ≡ some k → k ≡ k'
    same k k' h = cc

module _ (F : Floats) (C : Client) where
  open F use {Float}

  module _ (site device_id : Bytes) where
    abbrev base_of : Bytes
    base_of = site ++ b'/' ∷ device_id

    -- What a round does to the publisher: the object is published as it is then, or nothing.
    abbrev IsRound :
        Bool
        → C.State
        → List Message
        → HpMqttPub (C.State × List Message)
        → Program (C.State × List Message) Float
        → Type 0
    IsRound true c log p s = s.mqtt_publisher ≡ delivered C (messages F base_of s.data_obj) p c log
    IsRound false c log p s = s.mqtt_publisher ≡ p

    expose-IsRound :
        (s : Program (C.State × List Message) Float) (d : HpData Float) (c : C.State)
        (log : List Message)
        → s.mqtt_publisher.client_ ≡ some (c, log)
        → IsRound true c log s.mqtt_publisher
            (expose F (Logged C) site device_id (record s { data_obj = d }))
    unfolding expose
    expose-IsRound s d c log e =
        ap (λ (r : HpMqttPub (C.State × List Message) × Bool). r.0)
          (publish_all_data_at-delivered F C d site device_id s.mqtt_publisher c log e)

    handle-IsRound :
        (raw : Bytes) (s : Program (C.State × List Message) Float) (c : C.State)
        (log : List Message)
        → s.mqtt_publisher.client_ ≡ some (c, log)
        → IsRound (accepts raw) c log s.mqtt_publisher (handle F (Logged C) site device_id raw s)
    unfolding handle
    handle-IsRound [] s c log e = expose-IsRound s s.data_obj c log e
    handle-IsRound (b ∷ raw) s c log e = elim (Result-cases (validate (b ∷ raw))) [
      | inr (x, f) ↦ rw (f, handle, accepts) refl
      | inl (lines, f) ↦
          rw (f, handle, accepts) (expose-IsRound s (parse F lines s.data_obj) c log e)
    ]

    -- The object after some rounds.
    abbrev pub object_after : List Read → Program (C.State × List Message) Float → ℕ → HpData Float
    object_after reads s k = (run F (Logged C) site device_id k reads s).data_obj

    -- A round, and those behind it.
    after_round :
        (accepted : Bool) (reads rest : List Read) (rounds : List ℕ)
        (s s₁ : Program (C.State × List Message) Float) (c : C.State) (log : List Message)
        (p' : HpMqttPub (C.State × List Message))
        → ((k : ℕ) → object_after reads s (suc k) ≡ object_after rest s₁ k)
        → s.mqtt_publisher.client_ ≡ some (c, log)
        → IsRound accepted c log s.mqtt_publisher s₁
        → ((c₁ : C.State) (log₁ : List Message)
            → s₁.mqtt_publisher.client_ ≡ some (c₁, log₁)
            → IsPublished F C base_of (object_after rest s₁) rounds s₁.mqtt_publisher c₁ log₁ p')
        → IsPublished F C base_of
            (object_after reads s)
            (before_them accepted rounds)
            s.mqtt_publisher
            c
            log
            p'
    unfolding run
    after_round false reads rest rounds s s₁ c log p' same e unchanged later =
        let client_of = λ (p : HpMqttPub (C.State × List Message)). p.client_ in
        IsPublished-skip F C base_of (object_after reads s) (object_after rest s₁) same rounds
          s.mqtt_publisher c log p'
          (subst
            (λ (p : HpMqttPub (C.State × List Message)).
              IsPublished F C base_of (object_after rest s₁) rounds p c log p')
            unchanged (later c log (ap client_of unchanged ∙ e)))
    after_round true reads rest rounds s s₁ c log p' same e published later =
        let ms = messages F base_of (object_after reads s 1) in
        let (c₁, rs) = attempts C ms c in
        let now : s₁.mqtt_publisher ≡ delivered C ms s.mqtt_publisher c log =
          published
          ∙ ap (λ (d : HpData Float). delivered C (messages F base_of d) s.mqtt_publisher c log)
              (sym (same 0)) in
        IsPublished-cons F C base_of (object_after reads s) (object_after rest s₁) same rounds
          s.mqtt_publisher c log p'
          (subst
            (λ (p : HpMqttPub (C.State × List Message)).
              IsPublished F C base_of (object_after rest s₁) rounds p c₁ (log ++ selected rs ms) p')
            now
            (later c₁ (log ++ selected rs ms)
              (ap (λ (p : HpMqttPub (C.State × List Message)). p.client_) now)))

    run-IsPublished_from :
        (n : ℕ) (reads : List Read) (s : Program (C.State × List Message) Float) (c : C.State)
        (log : List Message)
        → s.mqtt_publisher.client_ ≡ some (c, log)
        → IsPublished F C base_of
            (object_after reads s)
            (accepted_rounds n reads)
            s.mqtt_publisher
            c
            log
            (run F (Logged C) site device_id n reads s).mqtt_publisher
    unfolding run tick accepted_rounds
    run-IsPublished_from zero reads s c log e =
        still F C base_of (object_after reads s) s.mqtt_publisher c log e
    run-IsPublished_from (suc n) reads s c log e = elim (ReadOutcome-cases (hp_read reads)) [
      | inl (r, f) ↦
          moved reads s c log [] (accepted_rounds (suc n) reads) (tick F (Logged C) s)
            (run F (Logged C) site device_id (suc n) reads s) (rw (f, accepted_rounds) refl)
            (rw (f, run) refl) (still F C base_of (object_after reads s) s.mqtt_publisher c log e)
      | inr (raw, rest, f) ↦
          let t = tick F (Logged C) s in
          let s₁ = handle F (Logged C) site device_id raw t in
          let s' = run F (Logged C) site device_id n rest s₁ in
          let rounds = accepted_rounds n rest in
          let steps = λ (k : ℕ). run-returned F (Logged C) site device_id raw k reads rest s f in
          moved reads s c log (before_them (accepts raw) rounds) (accepted_rounds (suc n) reads) s'
            (run F (Logged C) site device_id (suc n) reads s) (rw (f, accepted_rounds) refl)
            (steps n)
            (after_round (accepts raw) reads rest rounds s s₁ c log s'.mqtt_publisher
              (λ k. ap (λ (u : Program (C.State × List Message) Float). u.data_obj) (steps k)) e
              (handle-IsRound raw t c log e) (run-IsPublished_from n rest s₁))
    ]
      where
        -- The rounds and the last state, given by equations.
        moved :
            (reads : List Read) (s : Program (C.State × List Message) Float) (c : C.State)
            (log : List Message) (rounds rounds' : List ℕ)
            (u u' : Program (C.State × List Message) Float)
            → rounds' ≡ rounds
            → u' ≡ u
            → IsPublished F C base_of
                (object_after reads s)
                rounds
                s.mqtt_publisher
                c
                log
                u.mqtt_publisher
            → IsPublished F C base_of
                (object_after reads s)
                rounds'
                s.mqtt_publisher
                c
                log
                u'.mqtt_publisher
        moved reads s c log rounds rounds' u u' e f h = rw (e, f) h

  asked-log :
      (c : Settings) (p : HpMqttPub (C.State × List Message))
      → IsAsked (Logged C) c p
      → (k : C.State) × (p.client_ ≡ some (k, []))
  asked-log c p a =
      let k = (C.connect (options_of c) a.client.0).0 in
      (
        k,
        a.asked
            ∙ ap (λ (l : List Message). some (k, l))
                (created-log (C.create c.broker_address c.client_id) a.client a.created),
      )

  -- If `main` comes to its loop, then whatever the client does and whatever bytes arrive, the
  -- publisher after `n` rounds is the one at the set-up after attempts on the messages of the object
  -- as it was after each round whose message the validator accepts, in order, and on no others:
  -- the client was asked before each message whether it is connected, and got the message if it
  -- was; the messages of the attempts with success arrived, and nothing else.
  pub run-IsPublished :
      (l : Library) (opens : Bool) (c : Settings) (s : Program (C.State × List Message) Float)
      (n : ℕ) (reads : List Read)
      → set_up F (Logged C) l opens c ≡ some s
      → (k : C.State) × (s.mqtt_publisher.client_ ≡ some (k, []))
        × IsPublished F C
            (base_of c.site c.device_id)
            (object_after c.site c.device_id reads s)
            (accepted_rounds n reads)
            s.mqtt_publisher
            k
            []
            (run F (Logged C) c.site c.device_id n reads s).mqtt_publisher
  run-IsPublished l opens c s n reads e =
      let (k, empty) = asked-log c s.mqtt_publisher (set_up-IsAsked F (Logged C) l opens c s e) in
      (k, empty, run-IsPublished_from c.site c.device_id n reads s k [] empty)
