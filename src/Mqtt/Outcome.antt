-- ===== src/Mqtt/Outcome.antt =====
-- What a call of `publishAllData` does to the broker: which messages arrive, and what it returns.
use hanport_data_parser.Base.{
  suc, Bool, true, false, ◌&&◌, List, [], ◌∷◌, ◌++◌, Option, none, some, ◌≡◌, refl, sym, ap, ◌∙◌,
  inl, inr, if◌then◌else◌, Bool-cases, map, append-nil, append_assoc, length, arith,
}
use hanport_data_parser.Base.Bytes.{Bytes}
use hanport_data_parser.Data.{HpData}
use hanport_data_parser.Floats.{Floats}
use hanport_data_parser.Mqtt.{
  Message, Client, HpMqttPub, fields, publish, publish_float, publish_each,
  publish_individual_fields, publish_all_data_at,
}

-- A client that also keeps the messages that were published without an exception.
abbrev pub Logged : Client → Client
Logged C = record {
  State = C.State × List Message;
  create = λ b i. elim (C.create b i) [ none ↦ none | some s ↦ some (s, []) ];
  is_connected = λ s. (((C.is_connected s.0).0, s.1), (C.is_connected s.0).1);
  connect = λ o s. (((C.connect o s.0).0, s.1), (C.connect o s.0).1);
  disconnect = λ s. (((C.disconnect s.0).0, s.1), (C.disconnect s.0).1);
  publish = λ m s. (
    ((C.publish m s.0).0, if (C.publish m s.0).1 then s.1 ++ m ∷ [] else s.1),
    (C.publish m s.0).1,
  );
}

-- The messages whose attempt had success.
abbrev pub selected {ℓ} : {A : Type ℓ} → List Bool → List A → List A
selected [] ms = []
selected (r ∷ rs) [] = []
selected (true ∷ rs) (m ∷ ms) = m ∷ selected rs ms
selected (false ∷ rs) (m ∷ ms) = selected rs ms

abbrev pub all : List Bool → Bool
all [] = true
all (r ∷ rs) = r && all rs

-- One attempt on the client alone: it is asked whether it is connected, and given the message if
-- it is.
abbrev pub attempt : (C : Client) → Message → C.State → C.State × Bool
attempt C m s =
    let (s', connected) = C.is_connected s in if connected then C.publish m s' else (s', false)

-- One attempt after the other, with the results.
abbrev pub attempts : (C : Client) → List Message → C.State → C.State × List Bool
attempts C [] s = (s, [])
attempts C (m ∷ ms) s =
    let (s', r) = attempt C m s in let (s'', rs) = attempts C ms s' in (s'', r ∷ rs)

-- The publisher `p` after an attempt on each message, from the client's state `s` on: the messages
-- whose attempt had success are behind `log`, and nothing but the client has changed.
abbrev pub delivered :
    (C : Client)
    → List Message
    → HpMqttPub (C.State × List Message)
    → C.State
    → List Message
    → HpMqttPub (C.State × List Message)
delivered C ms p s log =
    let (s', rs) = attempts C ms s in record p { client_ = some (s', log ++ selected rs ms) }

and-true : (b : Bool) → b ≡ b && true
and-true true = refl
and-true false = refl

and_assoc : (a b c : Bool) → (a && b) && c ≡ a && (b && c)
and_assoc true b c = refl
and_assoc false b c = refl

selected-append :
    {A : Type 0} (rs qs : List Bool) (xs ys : List A)
    → length rs ≡ length xs
    → selected (rs ++ qs) (xs ++ ys) ≡ selected rs xs ++ selected qs ys
selected-append [] qs [] ys e = refl
selected-append [] qs (x ∷ xs) ys e = absurd (omega (arith, e))
selected-append (r ∷ rs) qs [] ys e = absurd (omega (arith, e))
selected-append (true ∷ rs) qs (x ∷ xs) ys e =
    ap (λ l. x ∷ l) (selected-append rs qs xs ys (omega (arith, e)))
selected-append (false ∷ rs) qs (x ∷ xs) ys e = selected-append rs qs xs ys (omega (arith, e))

length-attempts :
    (C : Client) (ms : List Message) (s : C.State) → length (attempts C ms s).1 ≡ length ms
length-attempts C [] s = refl
length-attempts C (m ∷ ms) s = ap suc (length-attempts C ms (attempt C m s).0)

attempts-append :
    (C : Client) (ms ns : List Message) (s : C.State)
    → let (s', rs) = attempts C ms s in
      attempts C (ms ++ ns) s ≡ ((attempts C ns s').0, rs ++ (attempts C ns s').1)
attempts-append C [] ns s = refl
attempts-append C (m ∷ ms) ns s =
    ap (λ (x : C.State × List Bool). (x.0, (attempt C m s).1 ∷ x.1))
      (attempts-append C ms ns (attempt C m s).0)

-- The attempts on two lists are those on one after those on the other.
pub delivered-append :
    (C : Client) (ms ns : List Message) (p : HpMqttPub (C.State × List Message)) (s : C.State)
    (log : List Message)
    → let (s', rs) = attempts C ms s in
      delivered C (ms ++ ns) p s log
      ≡ delivered C ns (delivered C ms p s log) s' (log ++ selected rs ms)
delivered-append C ms ns p s log =
    let (s', rs) = attempts C ms s in
    let (s'', qs) = attempts C ns s' in
    ap
      (λ (x : C.State × List Bool). record p {
        client_ = some (x.0, log ++ selected x.1 (ms ++ ns));
      })
      (attempts-append C ms ns s)
    ∙ ap (λ (l : List Message). record p { client_ = some (s'', l) })
        (ap (λ (l : List Message). log ++ l) (selected-append rs qs ms ns (length-attempts C ms s))
          ∙ sym (append_assoc log (selected rs ms) (selected qs ns)))

module _ (F : Floats) where
  open F use {Float, fixed_2}

  abbrev pub message_of : Bytes → Bytes × Float → Message
  message_of base (suffix, v) = record {
    topic = base ++ suffix;
    payload = fixed_2 v;
    qos = 1;
    retained = false;
  }

  -- The messages of the readings, below a base topic.
  abbrev pub messages : Bytes → HpData Float → List Message
  messages base d = map (message_of base) (fields F d)

  module _ (C : Client) where
    abbrev with :
        HpMqttPub (C.State × List Message)
        → C.State
        → List Message
        → HpMqttPub (C.State × List Message)
    with p s log = record p { client_ = some (s, log) }

    same_step :
        (p : HpMqttPub (C.State × List Message)) (s : C.State) (l l' : List Message) (b b' : Bool)
        → l ≡ l'
        → b ≡ b'
        → Path (HpMqttPub (C.State × List Message) × Bool) (with p s l, b) (with p s l', b')
    same_step p s l l' b b' e f =
        ap (λ (x : List Message). (with p s x, b)) e ∙ ap (λ (x : Bool). (with p s l', x)) f

    one :
        (base suffix : Bytes) (v : Float) (p : HpMqttPub (C.State × List Message)) (s : C.State)
        (log : List Message)
        → let m = message_of base (suffix, v) in
          publish_float (Logged C) F (base ++ suffix) v (with p s log) ≡ (
            with p (attempt C m s).0 (log ++ selected ((attempt C m s).1 ∷ []) (m ∷ [])),
            (attempt C m s).1,
          )
    unfolding publish_float publish
    one base suffix v p s log =
        let m = message_of base (suffix, v) in
        let s' = (C.is_connected s).0 in
        elim (Bool-cases (C.is_connected s).1) [
          | inl e ↦ rw e (elim (Bool-cases (C.publish m s').1) [
            | inl f ↦ rw f refl
            | inr f ↦ rw f (
                same_step p (C.publish m s').0 log (log ++ []) false false (sym (append-nil log))
                  refl)
          ])
          | inr e ↦ rw e (same_step p s' log (log ++ []) false false (sym (append-nil log)) refl)
        ]

    selected-cons :
        (r : Bool) (rs : List Bool) (m : Message) (ms log : List Message)
        → (log ++ selected (r ∷ []) (m ∷ [])) ++ selected rs ms ≡ log ++ selected (r ∷ rs) (m ∷ ms)
    selected-cons true rs m ms log = append_assoc log (m ∷ []) (selected rs ms)
    selected-cons false rs m ms log =
        ap (λ (l : List Message). l ++ selected rs ms) (append-nil log)

    each :
        (base : Bytes) (fs : List (Bytes × Float)) (acc : Bool)
        (p : HpMqttPub (C.State × List Message)) (s : C.State) (log : List Message)
        → let ms = map (message_of base) fs in
          publish_each (Logged C) F base fs acc (with p s log)
          ≡ (delivered C ms p s log, acc && all (attempts C ms s).1)
    unfolding publish_each
    each base [] acc p s log =
        same_step p s log (log ++ []) acc (acc && true) (sym (append-nil log)) (and-true acc)
    each base ((suffix, v) ∷ fs) acc p s log =
        let m = message_of base (suffix, v) in
        let ms = map (message_of base) fs in
        let (s', r) = attempt C m s in
        let (s'', rs) = attempts C ms s' in
        let log' = log ++ selected (r ∷ []) (m ∷ []) in
        ap
          (λ (x : HpMqttPub (C.State × List Message) × Bool).
            publish_each (Logged C) F base fs (acc && x.1) x.0)
          (one base suffix v p s log)
        ∙ each base fs (acc && r) p s' log'
        ∙ same_step p s'' (log' ++ selected rs ms) (log ++ selected (r ∷ rs) (m ∷ ms))
            ((acc && r) && all rs) (acc && (r && all rs)) (selected-cons r rs m ms log)
            (and_assoc acc r (all rs))

    -- If the publisher has a client, `publishAllData` attempts the messages of all readings in
    -- order, also behind one whose attempt had no success: the client comes to the state that these
    -- attempts leave, the messages with success arrive and no others, nothing else of the
    -- publisher changes, and the result says whether all arrived.
    pub publish_all_data_at-delivered :
        (d : HpData Float) (site device_id : Bytes) (p : HpMqttPub (C.State × List Message))
        (s : C.State) (log : List Message)
        → p.client_ ≡ some (s, log)
        → let ms = messages (site ++ b'/' ∷ device_id) d in
          publish_all_data_at (Logged C) F d site device_id p
          ≡ (delivered C ms p s log, all (attempts C ms s).1)
    unfolding publish_all_data_at publish_individual_fields
    publish_all_data_at-delivered d site device_id p s log e =
        let base = site ++ b'/' ∷ device_id in
        let whole : p ≡ with p s log =
          ap (λ (o : Option (C.State × List Message)). record p { client_ = o }) e in
        ap (publish_each (Logged C) F base (fields F d) true) whole
        ∙ each base (fields F d) true p s log
