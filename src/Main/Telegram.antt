-- ===== src/Main/Telegram.antt =====
-- A round of the loop on a telegram of the meter, and on one that arrives with a wrong byte.
use mathlib.Core.Option
use mathlib.Core.Path.{subst}
use hanport_data_parser.Base.{
  ℕ, true, List, [], ◌∷◌, ◌++◌, Option, ◌≡◌, refl, sym, ap, ◌∙◌, ◌≢◌, inl, inr, ◌==◌, ==_iff, arith,
  map, All, append_assoc, Bool-cases,
}
use hanport_data_parser.Base.Bytes.{Bytes, Lacks, IsBytes, find}
use hanport_data_parser.Base.Result.{ok, err, crc_mismatch}
use hanport_data_parser.Config.Assigned.{split_lines-line}
use hanport_data_parser.Data.{HpData, Field, get}
use hanport_data_parser.Floats.{Floats}
use hanport_data_parser.Main.{validate, kept, Program, parse, expose, handle}
use hanport_data_parser.Main.Exposed.{Holds, set_from_hp_data-Holds}
use hanport_data_parser.Mqtt.{Client, publish_all_data_at}
use hanport_data_parser.Parser.{finished, parse_message}
use hanport_data_parser.Parser
use hanport_data_parser.Parser.Render.{
  Item, reading, other, text, IsItem, last_value, parse_message-items,
}
use hanport_data_parser.Validator.{
  HanportMessageValidator, strip_line_ends, construct, split_lines, message_to_string_arr,
  get_calculated_crc, get_transmitted_crc,
}
use hanport_data_parser.Validator.Lines.{EndsLine, EndsLine-concat, message_to_string_arr-EndsLine}
use hanport_data_parser.Validator.Telegram.{
  telegram, with_digits, checksum, Valid, construct-telegram, construct-telegram_corrupted,
}

validate-Valid :
    (raw : Bytes) (v : HanportMessageValidator)
    → construct raw ≡ ok v
    → Valid v
    → validate raw ≡ message_to_string_arr v
unfolding validate
validate-Valid raw v e h =
    let same : (get_calculated_crc v == get_transmitted_crc v) ≡ true = (==_iff _ _).1 h in
    rw (e, validate) (rw same refl)

validate-not_Valid :
    (raw : Bytes) (v : HanportMessageValidator)
    → construct raw ≡ ok v
    → ¬ Valid v
    → validate raw ≡ err crc_mismatch
unfolding validate
validate-not_Valid raw v e h = elim (Bool-cases (get_calculated_crc v == get_transmitted_crc v)) [
  | inl f ↦ absurd (h ((==_iff _ _).0 f))
  | inr f ↦ rw (e, validate) (rw f refl)
]

module _ {Float : Type 0} where
  -- The lines of a telegram in front of its `!`, each ended by a line feed.
  abbrev pub body_of : List (Item Float) → Bytes
  body_of [] = []
  body_of (i ∷ is) = text i ++ b'\n' ∷ body_of is

  -- The last line is the `!`.
  abbrev marked : List (Item Float) → List (Item Float)
  marked [] = other (b'!' ∷ []) ∷ []
  marked (i ∷ is) = i ∷ marked is

  split_lines-body_of :
      (is : List (Item Float))
      → All (λ i. Lacks b'\n' (text i)) is
      → split_lines [] (body_of is ++ b'!' ∷ []) ≡ map text (marked is)
  unfolding split_lines
  split_lines-body_of [] h = refl
  split_lines-body_of (i ∷ is) h =
      ap (split_lines []) (append_assoc (text i) (b'\n' ∷ body_of is) (b'!' ∷ []))
      ∙ split_lines-line (text i) (body_of is ++ b'!' ∷ []) [] h.0
      ∙ ap (λ (ls : List Bytes). text i ∷ ls) (split_lines-body_of is h.1)

  last_value-marked :
      (f : Field) (is : List (Item Float)) → last_value f (marked is) ≡ last_value f is
  last_value-marked f [] = refl
  last_value-marked f (other line ∷ is) = last_value-marked f is
  last_value-marked f (reading _ _ _ g v ∷ is) = rw (last_value-marked f is) refl

pub validate-telegram :
    {Float : Type 0} (is : List (Item Float)) (line_end : Bytes)
    → IsBytes (body_of is)
    → Lacks b'!' (body_of is)
    → All (λ i. Lacks b'\n' (text i)) is
    → strip_line_ends line_end ≡ []
    → validate (telegram (body_of is) line_end) ≡ ok (map text (marked is))
validate-telegram is line_end bytes l h e =
    let body = body_of is in
    let (v, made, is_data, valid) = construct-telegram body line_end bytes l e in
    let ends = subst EndsLine (sym is_data) (EndsLine-concat body b'!' (omega arith)) in
    validate-Valid (telegram body line_end) v made valid
    ∙ message_to_string_arr-EndsLine v ends
    ∙ ap (λ (t : Bytes). ok (split_lines [] t)) is_data
    ∙ ap ok (split_lines-body_of is h)

module _ (F : Floats) (C : Client) where
  open F use {Float}
  open C use {State}

  marked-IsItem : (is : List (Item Float)) → All (IsItem F) is → All (IsItem F) (marked is)
  unfolding find
  marked-IsItem [] h = (inl refl, tt)
  marked-IsItem (i ∷ is) h = (h.0, marked-IsItem is h.1)

  -- What a round leaves of the state `s` after the telegram of the readings `is`.
  pub record IsRead (site device_id : Bytes) (is : List (Item Float)) (s s' : Program State Float)
      : Type 0 where
    pub stored :
        (f : Field) → get f s'.data_obj ≡ Option.get_or (last_value f is) (get f s.data_obj)
    pub counter : s'.heartbeat ≡ s.heartbeat
    pub registers-Holds : Holds F s'.data_obj s'.modbus_server
    pub published :
        s'.mqtt_publisher ≡ (publish_all_data_at C F s'.data_obj site device_id s.mqtt_publisher).0

  parse-finished :
      (lines : List Bytes) (d d' : HpData Float)
      → lines ≢ []
      → parse_message F lines d ≡ finished d'
      → parse F lines d ≡ d'
  unfolding parse Parser.construct
  parse-finished [] d d' n e = absurd (n refl)
  parse-finished (l ∷ ls) d d' n e = ap kept e

  handle-validate :
      (site device_id raw : Bytes) (lines : List Bytes) (s : Program State Float)
      → raw ≢ []
      → validate raw ≡ ok lines
      → handle F C site device_id raw s
        ≡ expose F C site device_id (record s { data_obj = parse F lines s.data_obj })
  unfolding handle
  handle-validate site device_id [] lines s n e = absurd (n refl)
  handle-validate site device_id (b ∷ raw) lines s n e = rw (e, handle) refl

  handle-err :
      (site device_id raw : Bytes) (s : Program State Float)
      → raw ≢ []
      → validate raw ≡ err crc_mismatch
      → handle F C site device_id raw s ≡ s
  unfolding handle
  handle-err site device_id [] s n e = absurd (n refl)
  handle-err site device_id (b ∷ raw) s n e = rw (e, handle) refl

  with_digits-ne : (body : Bytes) (n : ℕ) (line_end : Bytes) → with_digits body n line_end ≢ []
  with_digits-ne [] n line_end h = cc
  with_digits-ne (b ∷ body) n line_end h = cc

  marked-ne : (is : List (Item Float)) → map text (marked is) ≢ []
  marked-ne [] h = cc
  marked-ne (i ∷ is) h = cc

  expose-IsRead :
      (site device_id : Bytes) (is : List (Item Float)) (d : HpData Float) (s : Program State Float)
      → ((f : Field) → get f d ≡ Option.get_or (last_value f is) (get f s.data_obj))
      → IsRead site device_id is s (expose F C site device_id (record s { data_obj = d }))
  unfolding expose
  expose-IsRead site device_id is d s h = record {
    stored = h;
    counter = refl;
    registers-Holds = (set_from_hp_data-Holds F d s.modbus_server).0;
    published = refl;
  }

  -- When `hpRead` has returned a telegram of readings and other lines, the rest of the round leaves
  -- in each member of the object the last reading that the source stores in it, which for
  -- 1-0:63.7.0 is the export reading of reactive power on phase 3, or what it held before; the registers hold the object's readings, and these were given to the publisher.
  pub handle-telegram :
      (site device_id : Bytes) (is : List (Item Float)) (line_end : Bytes) (s : Program State Float)
      → All (IsItem F) is
      → All (λ i. Lacks b'\n' (text i)) is
      → IsBytes (body_of is)
      → Lacks b'!' (body_of is)
      → strip_line_ends line_end ≡ []
      → IsRead site device_id is s (handle F C site device_id (telegram (body_of is) line_end) s)
  handle-telegram site device_id is line_end s items unbroken bytes l e =
      let body = body_of is in
      let accepted = validate-telegram is line_end bytes l unbroken e in
      let (d, parsed, values) =
        parse_message-items F (marked is) s.data_obj (marked-IsItem is items) in
      let same : parse F (map text (marked is)) s.data_obj ≡ d =
        parse-finished (map text (marked is)) s.data_obj d (marked-ne is) parsed in
      let run =
        handle-validate site device_id (telegram body line_end) (map text (marked is)) s
          (with_digits-ne body (checksum body) line_end) accepted
        ∙ ap (λ (x : HpData Float). expose F C site device_id (record s { data_obj = x })) same in
      subst (IsRead site device_id is s) (sym run) (
        expose-IsRead site device_id is d s (λ f.
          values f
          ∙ ap (λ (o : Option Float). Option.get_or o (get f s.data_obj)) (last_value-marked f is)))

  -- A telegram of which one byte of the data has arrived wrong changes nothing in the rest of its
  -- round: not the object, not the registers, and nothing is published.
  pub handle-telegram_corrupted :
      (site device_id before after line_end : Bytes) (x y : ℕ) (s : Program State Float)
      → IsBytes (before ++ x ∷ after)
      → IsBytes (before ++ y ∷ after)
      → Lacks b'!' (before ++ y ∷ after)
      → x ≢ y
      → strip_line_ends line_end ≡ []
      → handle F C site device_id
          (with_digits (before ++ y ∷ after) (checksum (before ++ x ∷ after)) line_end)
          s
        ≡ s
  handle-telegram_corrupted site device_id before after line_end x y s hx hy l ne e =
      let sent = checksum (before ++ x ∷ after) in
      let raw = with_digits (before ++ y ∷ after) sent line_end in
      let (v, made, differ) = construct-telegram_corrupted before after line_end x y hx hy l ne e in
      handle-err site device_id raw s (with_digits-ne (before ++ y ∷ after) sent line_end)
        (validate-not_Valid raw v made differ)
