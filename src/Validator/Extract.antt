-- ===== src/Validator/Extract.antt =====
-- The constructor: where it cuts a telegram, and what the fields hold afterwards.
use hanport_data_parser.Base.{
  ℕ, ◌+◌, [], ◌∷◌, ◌++◌, none, some, ◌≡◌, refl, sym, ap, ◌∙◌, ◌≢◌, ◌⊎◌, inl, inr, ◌==◌, arith,
  Bool-cases, Option-cases, length, length-append, take, drop, append_assoc, take-length-append,
  drop-length-append,
}
use hanport_data_parser.Base.Bytes.{Bytes, Lacks}
use hanport_data_parser.Base.Int.{ℤ, to_u16}
use hanport_data_parser.Base.Numerals.{stoi}
use hanport_data_parser.Base.Result.{Result, ok, err, ◌>>=◌, no_end_marker, missing_crc, bad_crc}
use hanport_data_parser.Validator.{
  HanportMessageValidator, find_end, extract_message, strip_line_ends, parse_crc, crc_from,
  calculate_crc, fresh, construct,
}

-- `raw` falls into the bytes before its first `!`, and the bytes behind it.
pub record SplitsAt (raw body tail : Bytes) : Type 0 where
  pub parts : raw ≡ body ++ b'!' ∷ tail
  pub first : Lacks b'!' body

find_end-Lacks : (raw : Bytes) (i : ℕ) → Lacks b'!' raw → find_end i raw ≡ none
unfolding find_end
find_end-Lacks [] i l = refl
find_end-Lacks (b ∷ bs) i l = ground (arith, find_end-Lacks bs (i + 1) l.1)

find_end-append :
    (body tail : Bytes) (i : ℕ)
    → Lacks b'!' body
    → find_end i (body ++ b'!' ∷ tail) ≡ some (i + length body)
unfolding find_end
find_end-append [] tail i l = ground arith
find_end-append (b ∷ body) tail i l = ground (arith, find_end-append body tail (i + 1) l.1)

pub split-cases :
    (raw : Bytes) → (Lacks b'!' raw) ⊎ ((body : Bytes) × (tail : Bytes) × SplitsAt raw body tail)
split-cases [] = inl tt
split-cases (b ∷ bs) = elim (Bool-cases (b == b'!')) [
  | inl e ↦
      let n : b ≡ b'!' = ground arith in
      inr ([], bs, record { parts = ap (λ (t : ℕ). t ∷ bs) n; first = tt })
  | inr e ↦ elim (split-cases bs) [
    | inl l ↦ inl (ground arith, l)
    | inr (body, tail, s) ↦
        inr (b ∷ body, tail, record { parts = ap (◌∷◌ b) s.parts; first = (ground arith, s.first) })
  ]
]

-- The object once the telegram is cut.
abbrev pub cut : Bytes → Bytes → HanportMessageValidator
cut body tail = record (fresh (body ++ b'!' ∷ tail)) { hp_meter_data = body ++ b'!' ∷ [] }

take-marker : (body tail : Bytes) → take (length body + 1) (body ++ b'!' ∷ tail) ≡ body ++ b'!' ∷ []
take-marker body tail =
    ap (λ (n : ℕ). take n (body ++ b'!' ∷ tail)) (sym (length-append body (b'!' ∷ [])))
    ∙ ap (take (length (body ++ b'!' ∷ []))) (sym (append_assoc body (b'!' ∷ []) tail))
    ∙ take-length-append (body ++ b'!' ∷ []) tail

drop-marker : (body tail : Bytes) → drop (length body + 1) (body ++ b'!' ∷ tail) ≡ tail
drop-marker body tail =
    ap (λ (n : ℕ). drop n (body ++ b'!' ∷ tail)) (sym (length-append body (b'!' ∷ [])))
    ∙ ap (drop (length (body ++ b'!' ∷ []))) (sym (append_assoc body (b'!' ∷ []) tail))
    ∙ drop-length-append (body ++ b'!' ∷ []) tail

extract_message-append :
    (body tail : Bytes)
    → Lacks b'!' body
    → extract_message (fresh (body ++ b'!' ∷ tail)) ≡ ok (cut body tail, length body)
unfolding extract_message
extract_message-append body tail l =
    let found : find_end 0 (body ++ b'!' ∷ tail) ≡ some (length body) =
      find_end-append body tail 0 l ∙ ap some (omega arith) in
    rw (extract_message, found) (rw (take-marker body tail))

-- What the constructor makes of the bytes behind `!`, once the telegram is cut.
abbrev pub finish : Bytes → Bytes → Result HanportMessageValidator
finish body tail = parse_crc (strip_line_ends tail) (cut body tail) >>= λ v. ok (calculate_crc v)

pub construct-append :
    (body tail : Bytes) → Lacks b'!' body → construct (body ++ b'!' ∷ tail) ≡ finish body tail
unfolding construct
construct-append body tail l = rw (extract_message-append body tail l) (rw (drop-marker body tail))

-- The object that the constructor builds from a telegram with the checksum value `i`.
abbrev pub built : Bytes → Bytes → ℤ → HanportMessageValidator
built body tail i = record {
  raw_hp_message = body ++ b'!' ∷ tail;
  hp_meter_data = body ++ b'!' ∷ [];
  calculated_crc = crc_from 0 (body ++ b'!' ∷ []);
  transmitted_crc = to_u16 i;
}

-- The four ways in which the constructor can end, each with what it says of the input.
pub data Outcome (raw : Bytes) (r : Result HanportMessageValidator) : Type 0 where
  no_marker : Lacks b'!' raw → r ≡ err no_end_marker → Outcome raw r
  nothing_behind :
      (body tail : Bytes)
      → SplitsAt raw body tail
      → strip_line_ends tail ≡ []
      → r ≡ err missing_crc
      → Outcome raw r
  unreadable :
      (body tail : Bytes)
      → SplitsAt raw body tail
      → strip_line_ends tail ≢ []
      → stoi 16 (strip_line_ends tail) ≡ none
      → r ≡ err bad_crc
      → Outcome raw r
  accepted :
      (body tail : Bytes) (i : ℤ)
      → SplitsAt raw body tail
      → stoi 16 (strip_line_ends tail) ≡ some i
      → r ≡ ok (built body tail i)
      → Outcome raw r

module _ (c : ℕ) (cs : Bytes) (v : HanportMessageValidator) where
  parse_crc-some :
      (i : ℤ)
      → stoi 16 (c ∷ cs) ≡ some i
      → parse_crc (c ∷ cs) v ≡ ok (record v { transmitted_crc = to_u16 i })
  unfolding parse_crc
  parse_crc-some i e = ground arith

  parse_crc-none : stoi 16 (c ∷ cs) ≡ none → parse_crc (c ∷ cs) v ≡ err bad_crc
  unfolding parse_crc
  parse_crc-none e = ground arith

pub finish_accepted :
    (body tail : Bytes) (i : ℤ)
    → stoi 16 (strip_line_ends tail) ≡ some i
    → finish body tail ≡ ok (built body tail i)
finish_accepted body tail i e = by_crc (strip_line_ends tail) e
  where
    by_crc :
        (c : Bytes)
        → stoi 16 c ≡ some i
        → (parse_crc c (cut body tail) >>= λ v. ok (calculate_crc v)) ≡ ok (built body tail i)
    by_crc [] h = unfold stoi in cc
    by_crc (c ∷ cs) h = rw (parse_crc-some c cs (cut body tail) i h) (unfold calculate_crc in refl)

finish-Outcome : (raw body tail : Bytes) → SplitsAt raw body tail → Outcome raw (finish body tail)
finish-Outcome raw body tail s = by_crc (strip_line_ends tail) refl
  where
    by_crc : (c : Bytes) → strip_line_ends tail ≡ c → Outcome raw (finish body tail)
    by_crc [] e = nothing_behind body tail s e (unfold parse_crc in rw e)
    by_crc (c ∷ cs) e = elim (Option-cases (stoi 16 (c ∷ cs))) [
      | inl n ↦
          unreadable body tail s (λ (x : strip_line_ends tail ≡ []). cc) (rw e n)
            (rw e (rw (parse_crc-none c cs (cut body tail) n)))
      | inr (i, p) ↦ accepted body tail i s (rw e p) (finish_accepted body tail i (rw e p))
    ]

-- The constructor on every input: it fails for want of a `!`, for want of anything but line ends
-- behind the first `!`, or because that is no hexadecimal `int`; or else it cuts the input at the
-- first `!`, keeps that byte, and holds the checksum of what it kept and the one that it read.
pub construct-Outcome : (raw : Bytes) → Outcome raw (construct raw)
construct-Outcome raw = elim (split-cases raw) [
  | inl l ↦ no_marker l (unfold construct in rw (extract_message, find_end-Lacks raw 0 l))
  | inr (body, tail, s) ↦
      let e : construct raw ≡ finish body tail =
        ap construct s.parts ∙ construct-append body tail s.first in
      rw e (finish-Outcome raw body tail s)
]
