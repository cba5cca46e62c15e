-- ===== src/Tests/Validator.antt =====
-- Small telegrams through the validator.
use hanport_data_parser.Base.{List, [], ◌∷◌, ◌++◌, ◌≡◌, refl, arith}
use hanport_data_parser.Base.Bytes.{Bytes, codes}
use hanport_data_parser.Base.Int.{pos, negsuc}
use hanport_data_parser.Base.Numerals.{stoi}
use hanport_data_parser.Base.Result.{ok, err, bad_crc, missing_crc, no_end_marker}
use hanport_data_parser.Validator.{
  HanportMessageValidator, crc_from, strip_line_ends, construct, message_to_string_arr,
}
use hanport_data_parser.Validator.Crc.BitSerial.{shift_in, bit_stream, crc_from-bit_stream}
use hanport_data_parser.Validator.Extract.{built, Outcome, construct-Outcome}
use hanport_data_parser.Validator.Lines.{AreLines}
use hanport_data_parser.Validator.Telegram.{
  checksum, telegram, with_digits, Valid, construct-telegram, construct-telegram_corrupted,
  message_to_string_arr-construct,
}

abbrev body : Bytes
body = codes "/X\r\n1-0:1.7.0(1*kW)\r\n"

-- The check value of this checksum for the text "123456789".
check_value : crc_from 0 (codes "123456789") ≡ 0xBB3D
unfolding crc_from
check_value = refl

failures :
    (construct (codes "/X\r\n") ≡ err no_end_marker)
    × (construct (codes "/X!\r\n") ≡ err missing_crc)
    × (construct (codes "/X!QQQQ") ≡ err bad_crc)
unfolding construct stoi
failures = (refl, refl, refl)

-- The checksum of "/X!" is accepted by a prefix of digits, and `std::stoi` passes over the rest.
trailing : construct (codes "/X!12\r\nzz") ≡ ok (built (codes "/X") (codes "12\r\nzz") (pos 0x12))
unfolding construct stoi
trailing = refl

minus_sign : construct (codes "/X!-1") ≡ ok (built (codes "/X") (codes "-1") (negsuc 0))
unfolding construct stoi
minus_sign = refl

construct-telegram_example :
    (v : HanportMessageValidator) × (construct (telegram body (codes "\r\n")) ≡ ok v)
    × (v.hp_meter_data ≡ body ++ b'!' ∷ [])
    × Valid v
unfolding strip_line_ends
construct-telegram_example = construct-telegram body (codes "\r\n") (omega arith) (omega arith) refl

-- The `1` of the value arrives as a `3`.
construct-telegram_corrupted_example :
    (v : HanportMessageValidator) × (construct (
        with_digits
          (codes "/(" ++ b'3' ∷ codes "*kW)")
          (checksum (codes "/(" ++ b'1' ∷ codes "*kW)"))
          [])
      ≡ ok v)
    × (¬ Valid v)
unfolding strip_line_ends
construct-telegram_corrupted_example =
    construct-telegram_corrupted (codes "/(") (codes "*kW)") [] b'1' b'3' (omega arith)
      (omega arith) (omega arith) (omega arith) refl

construct-Outcome_example : Outcome (codes "/X!QQQQ") (construct (codes "/X!QQQQ"))
construct-Outcome_example = construct-Outcome (codes "/X!QQQQ")

crc_from-bit_stream_example : crc_from 0 (codes "/X!") ≡ shift_in 0 (bit_stream (codes "/X!"))
crc_from-bit_stream_example = crc_from-bit_stream (codes "/X!") 0 (omega arith)

abbrev parsed : HanportMessageValidator
parsed = built (codes "/X\r\nb\r\n") (codes "12\r\nzz") (pos 0x12)

parsed_is : construct (codes "/X\r\nb\r\n!12\r\nzz") ≡ ok parsed
unfolding construct stoi
parsed_is = refl

message_to_string_arr-construct_example :
    (lines : List Bytes) × (message_to_string_arr parsed ≡ ok lines)
    × AreLines parsed.hp_meter_data lines
message_to_string_arr-construct_example =
    message_to_string_arr-construct (codes "/X\r\nb\r\n!12\r\nzz") parsed parsed_is
