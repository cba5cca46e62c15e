-- ===== src/Config.antt =====
-- `Config` (src/config.cpp, include/config.hpp): the INI file with the program's settings.
pub mod Assigned
pub mod Clean
pub mod Entry
pub mod Trim
use hanport_data_parser.Base.{
  ℕ, ◌+◌, ◌-◌, ◌&&◌, ◌||◌, List, [], ◌∷◌, ◌++◌, Option, none, some, ◌==◌, ltb, if◌then◌else◌,
  length, take, drop,
}
use hanport_data_parser.Base.Bytes.{Bytes, codes, equal, find}
use hanport_data_parser.Base.Numerals.{is_space, skip_spaces}
use hanport_data_parser.Validator.{split_lines}

-- `std::unordered_map<std::string, V>`, as an association list.
abbrev pub Table {ℓ} : Type ℓ → Type ℓ
Table V = List (Bytes × V)

module _ {ℓ} {V : Type ℓ} where
  unfoldable pub find_key : Bytes → Table V → Option V
  find_key k [] = none
  find_key k ((j, v) ∷ m) = let rest = find_key k m in if equal j k then some v else rest

  -- `table[k] = v`
  unfoldable pub assign_key : Bytes → V → Table V → Table V
  assign_key k v [] = (k, v) ∷ []
  assign_key k v ((j, w) ∷ m) =
      let rest = assign_key k v m in if equal j k then (j, v) ∷ m else (j, w) ∷ rest

abbrev pub Section : Type 0
Section = Table Bytes

-- The value of `operator[]` on a missing key is a new empty table.
abbrev pub or_empty : Option Section → Section
or_empty none = []
or_empty (some t) = t

-- A white-space byte is dropped if nothing is kept behind it.
unfoldable pub keep : ℕ → Bytes → Bytes
keep c [] = []
keep c (d ∷ s) = c ∷ d ∷ s

-- The second loop of `trim`, which moves the end back.
unfoldable pub trim_end : Bytes → Bytes
unfolding keep
trim_end [] = []
trim_end (c ∷ s) = let rest = trim_end s in if is_space c then keep c rest else c ∷ rest

unfoldable pub trim : Bytes → Bytes
trim s = trim_end (skip_spaces s)

-- The object, with the section that `loadFromFile` is in.
pub record LoadState : Type 0 where
  pub current_section : Bytes
  pub data_ : Table Section

-- `s.back()` of the string `c ∷ s`.
pub back : ℕ → Bytes → ℕ
back c [] = c
back c (d ∷ s) = back d s

-- One round of the loop over `;` and `#`, from the position found so far.
pub earlier : Option ℕ → Option ℕ → Option ℕ
earlier none p = p
earlier (some cpos) none = some cpos
earlier (some cpos) (some p) = some (if ltb p cpos then p else cpos)

unfoldable pub strip_comment : Bytes → Bytes
unfolding earlier
strip_comment val = elim (earlier (find b';' val) (find b'#' val)) [
  | none ↦ val
  | some cpos ↦ trim (take cpos val)
]

-- `data_[current_section][key] = val`
unfoldable pub store : Bytes → Bytes → LoadState → LoadState
store key val r = record r {
  data_ =
      assign_key r.current_section
        (assign_key key val (or_empty (find_key r.current_section r.data_))) r.data_;
}

-- A line that is no comment and no header: split at the first `=`, if there is one.
unfoldable pub read_entry : Bytes → LoadState → LoadState
read_entry s r = elim (find b'=' s) [
  | none ↦ r
  | some eq ↦ store (trim (take eq s)) (strip_comment (trim (drop (eq + 1) s))) r
]

-- The loop body behind the first `trim`.
unfoldable pub read_trimmed : Bytes → LoadState → LoadState
unfolding back
read_trimmed [] r = r
read_trimmed (c ∷ s) r =
    if c == b';' || c == b'#'
    then r
    else if c == b'[' && back c s == b']'
    then record r { current_section = trim (take (length s - 1) s) }
    else read_entry (c ∷ s) r

unfoldable pub read_lines : List Bytes → LoadState → LoadState
read_lines [] r = r
read_lines (line ∷ lines) r = read_lines lines (read_trimmed (trim line) r)

-- The object at the start of `loadFromFile`, before any section.
abbrev pub cleared : LoadState
cleared = record { current_section = []; data_ = [] }

-- The object is its `data_`. The file is its bytes, or `none` if it cannot be opened; the second
-- component is the error text of a call that returns false.
unfoldable pub load_from_file : Bytes → Option Bytes → Table Section → Table Section × Option Bytes
load_from_file path none data_ = ([], some (codes "Could not open config file: " ++ path))
load_from_file path (some content) data_ =
    ((read_lines (split_lines [] content) cleared).data_, none)

unfoldable pub get : Bytes → Bytes → Bytes → Table Section → Bytes
get section key default_val data_ = elim (find_key section data_) [
  | none ↦ default_val
  | some t ↦ (elim (find_key key t) [ none ↦ default_val | some v ↦ v ])
]
