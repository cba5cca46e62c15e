-- ===== src/Validator/Telegram.antt =====
-- Whole telegrams as a meter builds them: the data from `/` to `!`, then its checksum as four
-- hexadecimal digits, then possibly a line end.
use mathlib.Core.Path.{subst}
use hanport_data_parser.Base.{
  ℕ, ◌/◌, ◌%◌, ◌^◌, ◌<◌, List, [], ◌∷◌, ◌++◌, ◌≡◌, refl, sym, ap, ◌∙◌, ◌≢◌, arith, All-append,
  All-append_left, All-append_right, append_assoc,
}
use hanport_data_parser.Base.Bytes.{Bytes, Lacks, IsByte, IsBytes}
use hanport_data_parser.Base.Int.{pos}
use hanport_data_parser.Base.Numerals.{stoi}
use hanport_data_parser.Base.Result.{Result, ok, err}
use hanport_data_parser.Validator.{
  HanportMessageValidator, strip_line_ends, crc_from, construct, split_lines, message_to_string_arr,
  get_calculated_crc, get_transmitted_crc,
}
use hanport_data_parser.Validator.Crc.{IsWord, crc_from-IsWord}
use hanport_data_parser.Validator.Crc.Detection.{crc_from-replace_ne}
use hanport_data_parser.Validator.Extract.{
  built, construct-append, finish_accepted, construct-Outcome, no_marker, nothing_behind,
  unreadable, accepted,
}
use hanport_data_parser.Validator.Hex.{hex_digit, hex_word, stoi-hex_word, to_u16-pos}
use hanport_data_parser.Validator.Lines.{
  EndsLine, EndsLine-concat, AreLines, split_lines-AreLines, message_to_string_arr-EndsLine,
}

-- The checksum of the data `body ++ "!"`.
abbrev pub checksum : Bytes → ℕ
checksum body = crc_from 0 (body ++ b'!' ∷ [])

abbrev pub telegram : Bytes → Bytes → Bytes
telegram body line_end = body ++ b'!' ∷ (hex_word (checksum body) ++ line_end)

marked-IsBytes : (body : Bytes) → IsBytes body → IsBytes (body ++ b'!' ∷ [])
marked-IsBytes body h = All-append IsByte body (b'!' ∷ []) h (omega arith, tt)

checksum-IsWord : (body : Bytes) → IsBytes body → IsWord (checksum body)
checksum-IsWord body h = crc_from-IsWord (body ++ b'!' ∷ []) 0 (marked-IsBytes body h) (omega arith)

-- Digits are no line ends.
strip_line_ends-hex_digit :
    (d : ℕ) (s : Bytes)
    → d < 16
    → strip_line_ends (hex_digit d ∷ s) ≡ hex_digit d ∷ strip_line_ends s
unfolding strip_line_ends hex_digit
strip_line_ends-hex_digit d s h = ground arith

strip_line_ends-hex_word :
    (n : ℕ) (line_end : Bytes)
    → strip_line_ends line_end ≡ []
    → strip_line_ends (hex_word n ++ line_end) ≡ hex_word n
strip_line_ends-hex_word n line_end e = rw (
  strip_line_ends-hex_digit (n / 4096 % 16) _ (omega arith),
  strip_line_ends-hex_digit (n / 256 % 16) _ (omega arith),
  strip_line_ends-hex_digit (n / 16 % 16) _ (omega arith),
  strip_line_ends-hex_digit (n % 16) _ (omega arith),
  e,
)

-- A telegram whose data is `body ++ "!"` but whose digits are those of `n`.
abbrev pub with_digits : Bytes → ℕ → Bytes → Bytes
with_digits body n line_end = body ++ b'!' ∷ (hex_word n ++ line_end)

pub construct-with_digits :
    (body line_end : Bytes) (n : ℕ)
    → Lacks b'!' body
    → n < 2 ^ 16
    → strip_line_ends line_end ≡ []
    → construct (with_digits body n line_end) ≡ ok (built body (hex_word n ++ line_end) (pos n))
construct-with_digits body line_end n l w e =
    construct-append body (hex_word n ++ line_end) l
    ∙ finish_accepted body (hex_word n ++ line_end) (pos n)
        (ap (stoi 16) (strip_line_ends-hex_word n line_end e) ∙ stoi-hex_word n w)

-- The two checksums of a telegram agree.
abbrev pub Valid : HanportMessageValidator → Type 0
Valid v = get_calculated_crc v ≡ get_transmitted_crc v

-- A telegram as a meter builds it, with any line ends behind its checksum, is constructed without
-- an error, and its two checksums agree.
pub construct-telegram :
    (body line_end : Bytes)
    → IsBytes body
    → Lacks b'!' body
    → strip_line_ends line_end ≡ []
    → (v : HanportMessageValidator) × (construct (telegram body line_end) ≡ ok v)
      × (v.hp_meter_data ≡ body ++ b'!' ∷ [])
      × Valid v
unfolding get_calculated_crc get_transmitted_crc
construct-telegram body line_end h l e =
    let w = checksum-IsWord body h in
    (
      built body (hex_word (checksum body) ++ line_end) (pos (checksum body)),
      construct-with_digits body line_end (checksum body) l w e,
      refl,
      sym (to_u16-pos (checksum body) w),
    )

-- A telegram that was built for other data, which differs from the data received in one byte, is
-- constructed but its two checksums disagree.
pub construct-telegram_corrupted :
    (before after line_end : Bytes) (x y : ℕ)
    → IsBytes (before ++ x ∷ after)
    → IsBytes (before ++ y ∷ after)
    → Lacks b'!' (before ++ y ∷ after)
    → x ≢ y
    → strip_line_ends line_end ≡ []
    → (v : HanportMessageValidator) × (construct
          (with_digits (before ++ y ∷ after) (checksum (before ++ x ∷ after)) line_end)
        ≡ ok v)
      × (¬ Valid v)
unfolding get_calculated_crc get_transmitted_crc
construct-telegram_corrupted before after line_end x y hx hy l ne e =
    let n = checksum (before ++ x ∷ after) in
    let w = checksum-IsWord (before ++ x ∷ after) hx in
    (
      built (before ++ y ∷ after) (hex_word n ++ line_end) (pos n),
      construct-with_digits (before ++ y ∷ after) line_end n l w e,
      λ agree. differ (sym (agree ∙ to_u16-pos n w)),
    )
  where
    differ : checksum (before ++ x ∷ after) ≢ checksum (before ++ y ∷ after)
    differ =
        rw
          (append_assoc before (x ∷ after) (b'!' ∷ []), append_assoc before (y ∷ after) (b'!' ∷ []))
          (crc_from-replace_ne before (after ++ b'!' ∷ []) x y
            (All-append_left IsByte before (x ∷ after) hx)
            (marked-IsBytes after (All-append_right IsByte before (x ∷ after) hx).1)
            (All-append_right IsByte before (x ∷ after) hx).0
            (All-append_right IsByte before (y ∷ after) hy).0 ne)

abbrev data_of : Result HanportMessageValidator → Bytes
data_of (ok v) = v.hp_meter_data
data_of (err x) = []

-- Whatever the constructor accepts has lines: `message_to_string_arr` does not throw, no line
-- holds a line feed, and the lines joined by line feeds are the data up to `!`.
pub message_to_string_arr-construct :
    (raw : Bytes) (v : HanportMessageValidator)
    → construct raw ≡ ok v
    → (lines : List Bytes) × (message_to_string_arr v ≡ ok lines) × AreLines v.hp_meter_data lines
message_to_string_arr-construct raw v e = elim (construct-Outcome raw) [
  | no_marker l p ↦ cc
  | nothing_behind body tail s p q ↦ cc
  | unreadable body tail s p q r ↦ cc
  | accepted body tail i s p q ↦
      let marked : v.hp_meter_data ≡ body ++ b'!' ∷ [] = ap (λ r. data_of r) (sym e ∙ q) in
      let ends = subst EndsLine (sym marked) (EndsLine-concat body b'!' (omega arith)) in
      (
        split_lines [] v.hp_meter_data,
        message_to_string_arr-EndsLine v ends,
        split_lines-AreLines v.hp_meter_data ends,
      )
]
