-- ===== src/Tests/Config.antt =====
-- A configuration file through the reader, and its settings.
use mathlib.Core.Option
use hanport_data_parser.Base.{List, [], ◌∷◌, none, some, ◌≡◌, refl, inl, inr, arith, All}
use hanport_data_parser.Base.Bytes.{codes, find, equal}
use hanport_data_parser.Base.Numerals.{is_space, skip_spaces}
use hanport_data_parser.Config.{
  keep, trim_end, trim, find_key, assign_key, store, strip_comment, read_entry, read_trimmed,
  read_lines, load_from_file, get,
}
use hanport_data_parser.Validator.{split_lines}
use hanport_data_parser.Config.Assigned.{
  Item, entry, header, remark, IsItem, content, last_value, get-load_from_file,
}
use hanport_data_parser.Config.Clean.{AllClean, load_from_file-AllClean}

abbrev items : List Item
items =
    remark (codes " # settings")
    ∷ header (codes " ") (codes " MODBUS ") (codes "\r")
    ∷ entry (codes "\tPORT ") (codes " 502 ") (codes "; the usual # one")
    ∷ remark (codes "no entry")
    ∷ []

items_are : All IsItem items
unfolding is_space trim find trim_end skip_spaces keep
items_are = (
  (inr (inl refl), omega arith),
  (
    (((refl, tt), (refl, tt)), omega arith),
    (
      ((omega arith, omega arith, inl refl), omega arith),
      ((inr (inr (omega arith, refl)), omega arith), tt),
    ),
  ),
)

get-load_from_file_example :
    get
      (codes "MODBUS")
      (codes "PORT")
      (codes "0")
      (load_from_file (codes "a.ini") (some (content items)) []).0
    ≡ Option.get_or (last_value (codes "MODBUS") (codes "PORT") [] items none) (codes "0")
get-load_from_file_example =
    get-load_from_file (codes "a.ini") items [] (codes "MODBUS") (codes "PORT") (codes "0")
      items_are

port_found :
    get
      (codes "MODBUS")
      (codes "PORT")
      (codes "0")
      (load_from_file (codes "a.ini") (some (content items)) []).0
    ≡ codes "502"
unfolding get find_key load_from_file read_lines split_lines read_trimmed trim trim_end skip_spaces
    is_space read_entry store assign_key strip_comment equal find
port_found = refl

load_from_file-AllClean_example :
    AllClean (load_from_file (codes "a.ini") (some (content items)) []).0
load_from_file-AllClean_example = load_from_file-AllClean (codes "a.ini") (some (content items)) []
