-- ===== src/Validator/Lines.antt =====
-- `message_to_string_arr`: the lines of a telegram.
use hanport_data_parser.Base.{
  ℕ, List, [], ◌∷◌, ◌++◌, ◌≡◌, refl, ap, ◌∙◌, ◌≢◌, inl, inr, ◌==◌, arith, Bool-cases, All,
  append_assoc,
}
use hanport_data_parser.Base.Bytes.{Bytes, Lacks}
use hanport_data_parser.Base.Result.{ok}
use hanport_data_parser.Validator.{
  HanportMessageValidator, split_lines, lines_or_throw, message_to_string_arr,
}

-- Lines put together again, with a line feed between two of them.
abbrev pub join_lines : List Bytes → Bytes
join_lines [] = []
join_lines (l ∷ []) = l
join_lines (l ∷ m ∷ ls) = l ++ b'\n' ∷ join_lines (m ∷ ls)

-- The text ends in a byte other than a line feed.
abbrev pub EndsLine : Bytes → Type 0
EndsLine [] = ⊥
EndsLine (b ∷ []) = b ≢ b'\n'
EndsLine (b ∷ c ∷ bs) = EndsLine (c ∷ bs)

Lacks-concat : (c b : ℕ) (xs : Bytes) → Lacks c xs → b ≢ c → Lacks c (xs ++ b ∷ [])
Lacks-concat c b [] l n = (n, tt)
Lacks-concat c b (x ∷ xs) l n = (l.0, Lacks-concat c b xs l.1 n)

-- No line holds a line feed.
pub split_lines-Lacks :
    (bs line : Bytes) → Lacks b'\n' line → All (Lacks b'\n') (split_lines line bs)
unfolding split_lines
split_lines-Lacks [] [] l = tt
split_lines-Lacks [] (c ∷ line) l = (l, tt)
split_lines-Lacks (b ∷ bs) line l = elim (Bool-cases (b == b'\n')) [
  | inl e ↦ rw e (l, split_lines-Lacks bs [] tt)
  | inr e ↦
      rw e (split_lines-Lacks bs (line ++ b ∷ []) (Lacks-concat b'\n' b line l (ground arith)))
]

split_lines-concat :
    (line : Bytes) (b : ℕ) → split_lines (line ++ b ∷ []) [] ≡ (line ++ b ∷ []) ∷ []
unfolding split_lines
split_lines-concat [] b = refl
split_lines-concat (c ∷ line) b = refl

join_lines-cons :
    (l : Bytes) (ls : List Bytes) (b : ℕ) (bs : Bytes)
    → join_lines ls ≡ b ∷ bs
    → join_lines (l ∷ ls) ≡ l ++ b'\n' ∷ b ∷ bs
join_lines-cons l [] b bs e = cc
join_lines-cons l (m ∷ ls) b bs e = ap (λ t. l ++ b'\n' ∷ t) e

pub join_lines-split_lines :
    (bs line : Bytes) → EndsLine bs → join_lines (split_lines line bs) ≡ line ++ bs
unfolding split_lines
join_lines-split_lines [] line h = absurd h
join_lines-split_lines (b ∷ []) line h = elim (Bool-cases (b == b'\n')) [
  | inl e ↦ absurd (h (ground arith))
  | inr e ↦ rw e (ap join_lines (split_lines-concat line b))
]
join_lines-split_lines (b ∷ c ∷ bs) line h = elim (Bool-cases (b == b'\n')) [
  | inl e ↦
      let n : b ≡ b'\n' = ground arith in
      rw e (
        join_lines-cons line (split_lines [] (c ∷ bs)) c bs (join_lines-split_lines (c ∷ bs) [] h)
        ∙ rw n)
  | inr e ↦
      rw e
        (join_lines-split_lines (c ∷ bs) (line ++ b ∷ []) h ∙ append_assoc line (b ∷ []) (c ∷ bs))
]

pub EndsLine-concat : (bs : Bytes) (b : ℕ) → b ≢ b'\n' → EndsLine (bs ++ b ∷ [])
EndsLine-concat [] b h = h
EndsLine-concat (c ∷ []) b h = h
EndsLine-concat (c ∷ d ∷ bs) b h = EndsLine-concat (d ∷ bs) b h

-- The lines are a faithful reading of a text that does not end in a line feed, as every extracted
-- telegram does not: there is at least one line, no line holds a line feed, and joined by line
-- feeds they give the text back.
pub record AreLines (text : Bytes) (lines : List Bytes) : Type 0 where
  pub joined : join_lines lines ≡ text
  pub unbroken : All (Lacks b'\n') lines

pub split_lines-AreLines : (text : Bytes) → EndsLine text → AreLines text (split_lines [] text)
split_lines-AreLines text h = record {
  joined = join_lines-split_lines text [] h;
  unbroken = split_lines-Lacks text [] tt;
}

pub message_to_string_arr-EndsLine :
    (v : HanportMessageValidator)
    → EndsLine v.hp_meter_data
    → message_to_string_arr v ≡ ok (split_lines [] v.hp_meter_data)
unfolding message_to_string_arr
message_to_string_arr-EndsLine v h =
    by_lines (split_lines [] v.hp_meter_data) (join_lines-split_lines v.hp_meter_data [] h)
  where
    by_lines : (ls : List Bytes) → join_lines ls ≡ v.hp_meter_data → lines_or_throw ls ≡ ok ls
    by_lines [] e = absurd (rw (← e) at h)
    by_lines (l ∷ ls) e = refl
