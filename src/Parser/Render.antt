-- ===== src/Parser/Render.antt =====
-- A whole telegram as a meter prints it, and the readings that the parser takes from it.
use mathlib.Core.Option
use hanport_data_parser.Base.{
  true, List, [], ◌∷◌, Option, none, some, ◌≡◌, refl, ap, ◌∙◌, ◌⊎◌, inl, inr, map, if◌then◌else◌,
  arith, All,
}
use hanport_data_parser.Base.Bytes.{Bytes, Lacks, find, contains}
use hanport_data_parser.Base.Result.{bad_float, ok, ◌>>=◌}
use hanport_data_parser.Data.{HpData, Field, get, set}
use hanport_data_parser.Data.Fields.{same, get-set}
use hanport_data_parser.Floats.{Floats}
use hanport_data_parser.Parser.{stamp, obis_code_of, to_float, parse_line, finished, parse_message}
use hanport_data_parser.Parser.Line.{
  line_of, IsPlain, find_code-IsCode, set_value-line_of, parse_line-line_of,
}
use hanport_data_parser.Parser.Message.{parse_message-ok}
use hanport_data_parser.Parser.Obis.{
  stored_table, find_code, store_reading, parse_electricity_data-stored_table,
}

-- A printed reading, with the member that the source stores its code in, and its value; or any
-- other line.
pub data Item (Float : Type 0) : Type 0 where
  reading : Bytes → Bytes → Bytes → Field → Float → Item Float
  other : Bytes → Item Float

module _ {Float : Type 0} where
  abbrev pub text : Item Float → Bytes
  text (reading code value unit f v) = line_of code value unit
  text (other line) = line

  -- What the readings do to an object, in order.
  abbrev pub apply : List (Item Float) → HpData Float → HpData Float
  apply [] d = d
  apply (reading _ _ _ f v ∷ items) d = apply items (set f v d)
  apply (other _ ∷ items) d = apply items d

  -- The value of the last reading of a member.
  abbrev pub last_value : Field → List (Item Float) → Option Float
  last_value f [] = none
  last_value f (other _ ∷ items) = last_value f items
  last_value f (reading _ _ _ g v ∷ items) = elim (last_value f items) [
    | some w ↦ some w
    | none ↦ if same f g then some v else none
  ]

  get-apply :
      (f : Field) (items : List (Item Float)) (d : HpData Float)
      → get f (apply items d) ≡ Option.get_or (last_value f items) (get f d)
  get-apply f [] d = refl
  get-apply f (other _ ∷ items) d = get-apply f items d
  get-apply f (reading _ _ _ g v ∷ items) d =
      rw (get-apply f items (set g v d), get-set f g v d) (ground arith)

module _ (F : Floats) where
  open F use {Float, stof}

  -- A reading, with the member that the source stores its code in, and with a value that `std::stof`
  -- accepts; or a line that the parser passes over: without a dash, the time, or with a code
  -- that the table lacks.
  abbrev pub IsItem : Item Float → Type 0
  IsItem (reading code value unit f v) =
      (find_code code stored_table ≡ some f)
      × IsPlain value
      × Lacks b':' unit
      × (stof value ≡ some v)
  IsItem (other line) =
      (find b'-' line ≡ none)
      ⊎ (contains stamp line ≡ true)
      ⊎ (find_code (obis_code_of line) stored_table ≡ none)

  parse_line-other :
      (line : Bytes) (d : HpData Float) → IsItem (other line) → parse_line F line d ≡ ok d
  unfolding parse_line
  parse_line-other line d (inl e) = rw (e, parse_line)
  parse_line-other line d (inr (inl e)) = ground arith
  parse_line-other line d (inr (inr e)) =
      ground (arith, rw e at (parse_electricity_data-stored_table F line (obis_code_of line) d))

  parse_line-reading :
      (code value unit : Bytes) (f : Field) (v : Float) (d : HpData Float)
      → IsItem (reading code value unit f v)
      → parse_line F (line_of code value unit) d ≡ ok (set f v d)
  unfolding to_float
  parse_line-reading code value unit f v d (row, p, u, e) =
      let c = find_code-IsCode code f row in
      let accepted : to_float F bad_float value ≡ ok v = rw (e, to_float) in
      parse_line-line_of F code value unit c p u d
      ∙ parse_electricity_data-stored_table F (line_of code value unit) code d
      ∙ ap (λ o. store_reading F o (line_of code value unit) d) row
      ∙ ap (λ r. r >>= λ w. ok (set f w d)) (set_value-line_of F code value unit c p u ∙ accepted)

  -- A telegram of readings, under any codes of the table, and other lines is parsed without an error,
  -- and the object then holds for each member the value of the last reading that the source
  -- stores in that member, which for 1-0:63.7.0 is the export reading of reactive power on phase 3;
  -- a member that has no reading keeps its value.
  pub parse_message-items :
      (items : List (Item Float)) (d : HpData Float)
      → All IsItem items
      → (d' : HpData Float) × (parse_message F (map text items) d ≡ finished d')
        × ((f : Field) → get f d' ≡ Option.get_or (last_value f items) (get f d))
  parse_message-items items d h = (apply items d, parsed items d h, λ f. get-apply f items d)
    where
      parsed :
          (xs : List (Item Float)) (o : HpData Float)
          → All IsItem xs
          → parse_message F (map text xs) o ≡ finished (apply xs o)
      parsed [] o t = unfold parse_message in refl
      parsed (reading code value unit f v ∷ xs) o t =
          parse_message-ok F (line_of code value unit) (map text xs) o (set f v o)
            (parse_line-reading code value unit f v o t.0)
          ∙ parsed xs (set f v o) t.1
      parsed (other line ∷ xs) o t =
          parse_message-ok F line (map text xs) o o (parse_line-other line o t.0) ∙ parsed xs o t.1
