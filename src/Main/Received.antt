-- ===== src/Main/Received.antt =====
-- From the bytes at the serial port to the registers: one round of the loop.
use mathlib.Core.Path.{subst}
use hanport_data_parser.Base.{
  ℕ, suc, ◌/◌, ◌%◌, ◌<◌, List, [], ◌∷◌, ◌++◌, ◌≡◌, ◌≢◌, refl, sym, ap, ◌∙◌, All, append-nil, arith,
}
use hanport_data_parser.Base.Bytes.{Bytes, Lacks, IsBytes}
use hanport_data_parser.Floats.{Floats}
use hanport_data_parser.Main.{Program, tick, handle, run}
use hanport_data_parser.Main.Telegram.{body_of, IsRead, handle-telegram}
use hanport_data_parser.Mqtt.{Client}
use hanport_data_parser.Parser.Render.{Item, text, IsItem}
use hanport_data_parser.Serial.{Reader, start, Read, returned, hp_read}
use hanport_data_parser.Serial.Frame.{IsFrame}
use hanport_data_parser.Serial.Resync.{hp_read-frame}
use hanport_data_parser.Serial.Scan.{stream, scan, pending}
use hanport_data_parser.Validator.{strip_line_ends}
use hanport_data_parser.Validator.Hex.{hex_digit, hex_word}
use hanport_data_parser.Validator.Telegram.{checksum, telegram}

hex_digit-ne : (d : ℕ) → d < 16 → hex_digit d ≢ b'/'
unfolding hex_digit
hex_digit-ne d h = ground arith

hex_word-Lacks : (n : ℕ) → Lacks b'/' (hex_word n)
hex_word-Lacks n = (
  hex_digit-ne (n / 4096 % 16) (omega arith),
  (
    hex_digit-ne (n / 256 % 16) (omega arith),
    (hex_digit-ne (n / 16 % 16) (omega arith), (hex_digit-ne (n % 16) (omega arith), tt)),
  ),
)

-- A telegram with no line end behind its checksum is what `hpRead` looks for.
pub telegram-IsFrame :
    (body b : Bytes) → body ≡ b'/' ∷ b → Lacks b'/' b → Lacks b'!' b → IsFrame (telegram body [])
telegram-IsFrame body b e l m = record {
  body = b;
  crc = hex_word (checksum body);
  parts =
      ap (λ (t : Bytes). body ++ b'!' ∷ t) (append-nil (hex_word (checksum body)))
      ∙ ap (λ (t : Bytes). t ++ b'!' ∷ hex_word (checksum body)) e;
  no_start = l;
  no_end = m;
  crc_length = refl;
  crc_no_start = hex_word-Lacks (checksum body);
}

module _ (F : Floats) (C : Client) where
  open F use {Float}
  open C use {State}

  pub run-returned :
      (site device_id raw : Bytes) (n : ℕ) (reads later : List Read) (s : Program State Float)
      → hp_read reads ≡ returned raw later
      → run F C site device_id (suc n) reads s
        ≡ run F C site device_id n later (handle F C site device_id raw (tick F C s))
  unfolding run
  run-returned site device_id raw n reads later s e = rw (e, run) refl

  pub no_line_end : strip_line_ends [] ≡ []
  unfolding strip_line_ends
  no_line_end = refl

  -- A telegram that a meter sends is found among the bytes at the port, whatever comes in front of
  -- it and completes no telegram, whatever comes behind it, and however the calls of `read` cut
  -- the bytes. One round of the loop then counts the heartbeat, stores the last reading of each
  -- member, writes the object's readings to the registers, and gives them to the publisher.
  pub run-telegram :
      (site device_id : Bytes) (is : List (Item Float)) (b noise rest : Bytes) (r : Reader)
      (reads : List Read) (s : Program State Float)
      → All (IsItem F) is
      → All (λ i. Lacks b'\n' (text i)) is
      → IsBytes (body_of is)
      → body_of is ≡ b'/' ∷ b
      → Lacks b'/' b
      → Lacks b'!' b
      → stream reads ≡ noise ++ telegram (body_of is) [] ++ rest
      → scan start noise ≡ pending r
      → IsRead F C site device_id is (tick F C s) (run F C site device_id 1 reads s)
  unfolding run
  run-telegram site device_id is b noise rest r reads s items unbroken bytes e l m arrived quiet =
      let raw = telegram (body_of is) [] in
      let (later, found) =
        hp_read-frame reads noise raw rest r (telegram-IsFrame (body_of is) b e l m) arrived
          quiet in
      let no_mark : Lacks b'!' (body_of is) = subst (Lacks b'!') (sym e) (omega arith, m) in
      subst (IsRead F C site device_id is (tick F C s))
        (sym (run-returned site device_id raw 0 reads later s found))
        (handle-telegram F C site device_id is [] (tick F C s) items unbroken bytes no_mark
          no_line_end)
