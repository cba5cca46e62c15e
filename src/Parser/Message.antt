-- ===== src/Parser/Message.antt =====
-- `parse_message` as a whole: what it changes, and what an exception leaves.
use hanport_data_parser.Base.{
  ◌||◌, ℕ, Bool, true, false, not, ◌&&◌, List, [], ◌∷◌, ◌++◌, Option, none, some, ◌≡◌, refl, sym,
  ap, ◌∙◌, ◌≢◌, inl, inr, if◌then◌else◌, arith, Bool-cases,
}
use hanport_data_parser.Base.Bytes.{Bytes, equal, equal_iff, find, contains}
use hanport_data_parser.Base.Result.{Error, Result, ok, err, ◌>>=◌, Result-cases}
use hanport_data_parser.Data.{
  HpData, Field, set, l3_reactive_power_import, l3_reactive_power_export,
}
use hanport_data_parser.Floats.{Floats}
use hanport_data_parser.Parser.{
  stamp, obis_code_of, set_value, parse_electricity_data, parse_line, Parsed, finished, thrown,
  parse_message,
}
use hanport_data_parser.Parser.Obis.{
  obis_table, find_code, l3_code, store_reading, parse_electricity_data-obis_table,
  parse_electricity_data-l3_code,
}

-- A test of every row of a table holds of each row that is found.
abbrev pub all_rows : (Bytes → Field → Bool) → List (Bytes × Field) → Bool
all_rows p [] = true
all_rows p ((c, f) ∷ rows) = p c f && all_rows p rows

pub all_rows-find_code :
    (p : Bytes → Field → Bool) (rows : List (Bytes × Field)) (code : Bytes) (f : Field)
    → all_rows p rows ≡ true
    → find_code code rows ≡ some f
    → p code f ≡ true
all_rows-find_code p [] code f h e = cc
all_rows-find_code p ((c, g) ∷ rows) code f h e =
    ground (arith, equal_iff code c, all_rows-find_code p rows code f)

abbrev is_l3_import : Field → Bool
is_l3_import l3_reactive_power_import = true
is_l3_import _ = false

-- No other code than its own names the import reading of phase 3.
find_code-ne_l3_import :
    (code : Bytes) (f : Field)
    → code ≢ l3_code
    → find_code code obis_table ≡ some f
    → is_l3_import f ≡ false
unfolding equal
find_code-ne_l3_import code f ne e = ground (
  arith,
  equal_iff code l3_code,
  all_rows-find_code (λ c g. not (is_l3_import g) || equal c l3_code) obis_table code f refl e,
)

module _ (F : Floats) where
  open F use {Float}

  abbrev Keeps : HpData Float → Result (HpData Float) → Type 0
  Keeps d (ok d') =
      (d'.l3_reactive_power_import ≡ d.l3_reactive_power_import) × (d'.heartbeat ≡ d.heartbeat)
  Keeps d (err e) = Unit

  set-Keeps :
      (f : Field) (v : Float) (d : HpData Float) → is_l3_import f ≡ false → Keeps d (ok (set f v d))
  set-Keeps l3_reactive_power_import v d h = cc
  set-Keeps _ v d h = (refl, refl)

  store_reading-Keeps :
      (f : Field) (line : Bytes) (d : HpData Float)
      → is_l3_import f ≡ false
      → Keeps d (store_reading F (some f) line d)
  store_reading-Keeps f line d h = by_value (set_value F line)
    where
      by_value : (r : Result Float) → Keeps d (r >>= λ v. ok (set f v d))
      by_value (ok v) = set-Keeps f v d h
      by_value (err e) = tt

  parse_electricity_data-Keeps :
      (line code : Bytes) (d : HpData Float) → Keeps d (parse_electricity_data F line code d)
  parse_electricity_data-Keeps line code d = elim (Bool-cases (equal code l3_code)) [
    | inl e ↦ rw ((equal_iff code l3_code).0 e) (
        rw (parse_electricity_data-l3_code F line d)
          (store_reading-Keeps l3_reactive_power_export line d refl))
    | inr e ↦
        let ne : code ≢ l3_code = ground (arith, equal_iff code l3_code) in
        rw (parse_electricity_data-obis_table F line code d ne)
          (by_field ne (find_code code obis_table) refl)
  ]
    where
      by_field :
          code ≢ l3_code
          → (o : Option Field) → find_code code obis_table ≡ o
          → Keeps d (store_reading F o line d)
      by_field ne none e = (refl, refl)
      by_field ne (some f) e = store_reading-Keeps f line d (find_code-ne_l3_import code f ne e)

  parse_line-Keeps : (line : Bytes) (d : HpData Float) → Keeps d (parse_line F line d)
  unfolding parse_line
  parse_line-Keeps line d = by_dash (find b'-' line) (contains stamp line)
    where
      by_dash :
          (o : Option ℕ) (b : Bool)
          → Keeps d (elim o [
            | none ↦ ok d
            | some _ ↦ if b then ok d else parse_electricity_data F line (obis_code_of line) d
          ])
      by_dash none b = (refl, refl)
      by_dash (some _) true = (refl, refl)
      by_dash (some _) false = parse_electricity_data-Keeps line (obis_code_of line) d

  -- The object after `parse_message`, whether it threw or not.
  abbrev pub object : Parsed (HpData Float) → HpData Float
  object (finished d) = d
  object (thrown e d) = d

  module _ (line : Bytes) (lines : List Bytes) (d : HpData Float) where
    pub parse_message-ok :
        (d' : HpData Float)
        → parse_line F line d ≡ ok d'
        → parse_message F (line ∷ lines) d ≡ parse_message F lines d'
    unfolding parse_message
    parse_message-ok d' e = rw (e, parse_message)

    pub parse_message-err :
        (x : Error) → parse_line F line d ≡ err x → parse_message F (line ∷ lines) d ≡ thrown x d
    unfolding parse_message
    parse_message-err x e = rw (e, parse_message)

  -- No telegram changes the import reading of reactive power on phase 3, whatever its lines are,
  -- nor the heartbeat.
  pub parse_message_keeps :
      (lines : List Bytes) (d : HpData Float)
      → let d' = object (parse_message F lines d) in
        (d'.l3_reactive_power_import ≡ d.l3_reactive_power_import) × (d'.heartbeat ≡ d.heartbeat)
  unfolding parse_message
  parse_message_keeps [] d = (refl, refl)
  parse_message_keeps (line ∷ lines) d = elim (Result-cases (parse_line F line d)) [
    | inl (d', e) ↦
        let now : Keeps d (ok d') = rw e at (parse_line-Keeps line d) in
        let later = parse_message_keeps lines d' in
        rw (parse_message-ok line lines d d' e) (later.0 ∙ now.0, later.1 ∙ now.1)
    | inr (x, e) ↦ rw (parse_message-err line lines d x e) (refl, refl)
  ]

  -- `parse_message` goes through the lines in order and stops at the first that fails.
  pub record StopsAt (lines : List Bytes) (d : HpData Float) (x : Error) (d' : HpData Float)
      : Type 0 where
    pub before : List Bytes
    pub bad : Bytes
    pub after : List Bytes
    pub splits : lines ≡ before ++ bad ∷ after
    pub parsed : parse_message F before d ≡ finished d'
    pub fails : parse_line F bad d' ≡ err x

  -- An exception comes from one line. What the lines before it stored stays in the object, and
  -- nothing else was stored.
  pub parse_message-StopsAt :
      (lines : List Bytes) (d d' : HpData Float) (x : Error)
      → parse_message F lines d ≡ thrown x d'
      → StopsAt lines d x d'
  unfolding parse_message
  parse_message-StopsAt [] d d' x h = cc
  parse_message-StopsAt (line ∷ lines) d d' x h = elim (Result-cases (parse_line F line d)) [
    | inl (d₁, e) ↦
        let s =
          parse_message-StopsAt lines d₁ d' x (sym (parse_message-ok line lines d d₁ e) ∙ h) in
        record {
          before = line ∷ s.before;
          bad = s.bad;
          after = s.after;
          splits = ap (◌∷◌ line) s.splits;
          parsed = parse_message-ok line s.before d d₁ e ∙ s.parsed;
          fails = s.fails;
        }
    | inr (y, e) ↦
        let same : thrown y d ≡ thrown x d' = sym (parse_message-err line lines d y e) ∙ h in
        let same_error : y ≡ x = cc in
        let same_object : d ≡ d' = cc in
        record {
          before = [];
          bad = line;
          after = lines;
          splits = refl;
          parsed = ap finished same_object;
          fails = ap (parse_line F line) (sym same_object) ∙ e ∙ ap err same_error;
        }
  ]
