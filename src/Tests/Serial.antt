-- ===== src/Tests/Serial.antt =====
-- `hpRead` on a few chunks.
use hanport_data_parser.Base.{List, [], ◌∷◌, ◌≡◌, refl, ◌↔◌, arith}
use hanport_data_parser.Base.Bytes.{Bytes, codes}
use hanport_data_parser.Serial.{Read, nothing, chunk, returned, hp_read}
use hanport_data_parser.Serial.Frame.{IsFrame}
use hanport_data_parser.Serial.Resync.{
  Returns, HoldsFrame, SameMessage, hp_read-Returns_iff, hp_read-rechunk,
}
use hanport_data_parser.Serial.Scan.{stream}
use hanport_data_parser.Serial.Sound.{IsReceived, hp_read-IsReceived}

abbrev frame : Bytes
frame = codes "/ab!1A2B"

-- A broken telegram, an empty read, and a telegram in two chunks.
abbrev reads : List Read
reads =
    chunk (codes "xx/q")
    ∷ nothing
    ∷ chunk (codes "/ab!1A")
    ∷ chunk (codes "2B\r\n")
    ∷ chunk (codes "/c")
    ∷ []

abbrev later : List Read
later = chunk (codes "/c") ∷ []

read_frame : hp_read reads ≡ returned frame later
unfolding hp_read
read_frame = refl

-- A `!` among the checksum bytes is one of them; a `/` there starts anew.
restarts : hp_read (chunk (codes "/ab!1/c!!!!!x") ∷ []) ≡ returned (codes "/c!!!!!") []
unfolding hp_read
restarts = refl

abbrev frame_is : IsFrame frame
frame_is = record {
  body = codes "ab";
  crc = codes "1A2B";
  parts = refl;
  no_start = omega arith;
  no_end = omega arith;
  crc_length = refl;
  crc_no_start = omega arith;
}

hp_read-IsReceived_example : IsReceived reads frame later
hp_read-IsReceived_example = hp_read-IsReceived reads later frame read_frame

hp_read-Returns_iff_example : Returns (hp_read reads) ↔ HoldsFrame (stream reads)
hp_read-Returns_iff_example = hp_read-Returns_iff reads

hp_read-rechunk_example : SameMessage (hp_read reads) (hp_read (chunk (stream reads) ∷ []))
hp_read-rechunk_example = hp_read-rechunk reads (chunk (stream reads) ∷ []) refl
