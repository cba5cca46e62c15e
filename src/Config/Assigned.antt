-- ===== src/Config/Assigned.antt =====
-- A whole configuration file: what `get` answers after `loadFromFile`.
use mathlib.Core.Option
use hanport_data_parser.Base.{
  true, false, List, [], ◌∷◌, ◌++◌, Option, none, some, ◌≡◌, refl, sym, ap, ◌∙◌, ◌≢◌, ◌⊎◌, inl, inr,
  arith, if◌then◌else◌, map, append-nil, Bool-cases, Option-cases, All, ◌==◌, append_assoc,
}
use hanport_data_parser.Base.Bytes.{Bytes, Lacks, equal, equal_iff, find}
use hanport_data_parser.Config.{
  Table, Section, find_key, assign_key, or_empty, trim, LoadState, store, read_entry, read_trimmed,
  read_lines, cleared, load_from_file, get,
}
use hanport_data_parser.Config.Entry.{
  IsKey, IsValue, IsComment, IsBlank, entry_line, header_line, read_trimmed-entry_line,
  read_trimmed-header_line,
}
use hanport_data_parser.Validator.{split_lines}

-- The lines of a file: an entry with its comment, a header, or a line that says nothing.
pub data Item : Type 0 where
  entry : Bytes → Bytes → Bytes → Item
  header : Bytes → Bytes → Bytes → Item
  remark : Bytes → Item

abbrev pub text : Item → Bytes
text (entry key value comment) = entry_line key value comment
text (header before name behind) = header_line before name behind
text (remark line) = line

-- Blank, a comment, or neither a header nor an entry.
abbrev pub IsRemark : Bytes → Type 0
IsRemark [] = Unit
IsRemark (c ∷ s) = (c ≡ b';') ⊎ (c ≡ b'#') ⊎ ((c ≢ b'[') × (find b'=' (c ∷ s) ≡ none))

abbrev pub IsWellFormed : Item → Type 0
IsWellFormed (entry key value comment) = IsKey key × IsValue value × IsComment comment
IsWellFormed (header before name behind) = IsBlank before × IsBlank behind
IsWellFormed (remark line) = IsRemark (trim line)

abbrev pub IsItem : Item → Type 0
IsItem i = IsWellFormed i × Lacks b'\n' (text i)

-- Every line ends in a line feed.
abbrev pub content : List Item → Bytes
content [] = []
content (i ∷ is) = text i ++ b'\n' ∷ content is

-- The last value under the key in a file whose first line lies in the section `current`.
abbrev pub last_value : Bytes → Bytes → Bytes → List Item → Option Bytes → Option Bytes
last_value section key current [] found = found
last_value section key current (entry k v w ∷ is) found =
    last_value section key current is (
      if equal current section
      then (if equal (trim k) key then some (trim v) else found)
      else found)
last_value section key current (header a name b ∷ is) found =
    last_value section key (trim name) is found
last_value section key current (remark line ∷ is) found = last_value section key current is found

equal_apart : (i j k : Bytes) → equal i j ≡ true → equal i k ≡ false → equal k j ≡ false
equal_apart i j k f e = elim (Bool-cases (equal k j)) [
  | inl g ↦
      let apart : equal i k ≡ true =
        (equal_iff i k).1 ((equal_iff i j).0 f ∙ sym ((equal_iff k j).0 g)) in
      cc
  | inr g ↦ g
]

module _ {ℓ} {V : Type ℓ} where
  pub find_key-assign_key :
      (j k : Bytes) (v : V) (m : Table V)
      → find_key j (assign_key k v m) ≡ (if equal k j then some v else find_key j m)
  unfolding find_key assign_key
  find_key-assign_key j k v [] = refl
  find_key-assign_key j k v ((i, w) ∷ m) = elim (Bool-cases (equal i k)) [
    | inl e ↦
        let same : i ≡ k = (equal_iff i k).0 e in
        rw e (rw same (elim (Bool-cases (equal k j)) [ inl f ↦ rw f refl | inr f ↦ rw f refl ]))
    | inr e ↦ rw e (elim (Bool-cases (equal i j)) [
      | inl f ↦ rw f (rw (equal_apart i j k f e) refl)
      | inr f ↦ rw f (find_key-assign_key j k v m)
    ])
  ]

-- What is stored under a section and a key.
abbrev pub stored : Bytes → Bytes → Table Section → Option Bytes
stored section key data_ = find_key key (or_empty (find_key section data_))

-- An assignment is seen under its own section and key, and nowhere else.
stored-store :
    (section key k v : Bytes) (r : LoadState)
    → stored section key (store k v r).data_ ≡ (
        if equal r.current_section section
        then (if equal k key then some v else stored section key r.data_)
        else stored section key r.data_)
unfolding store
stored-store section key k v r =
    let cell = assign_key k v (or_empty (find_key r.current_section r.data_)) in
    ap (λ (o : Option Section). find_key key (or_empty o))
      (find_key-assign_key section r.current_section cell r.data_)
    ∙ elim (Bool-cases (equal r.current_section section)) [
      | inl e ↦
          let same : r.current_section ≡ section = (equal_iff r.current_section section).0 e in
          rw e (
            find_key-assign_key key k v (or_empty (find_key r.current_section r.data_))
            ∙ ap (λ (t : Bytes). if equal k key then some v else stored t key r.data_) same)
      | inr e ↦ rw e refl
    ]

read_trimmed-IsRemark : (s : Bytes) (r : LoadState) → IsRemark s → read_trimmed s r ≡ r
unfolding read_trimmed read_entry
read_trimmed-IsRemark [] r h = refl
read_trimmed-IsRemark (c ∷ s) r h = elim h [
  | inl e ↦ ground arith
  | inr (inl e) ↦ ground arith
  | inr (inr p) ↦ ground (arith, p.0, p.1)
]

stored-read_lines :
    (section key : Bytes) (is : List Item) (r : LoadState)
    → All IsItem is
    → stored section key (read_lines (map text is) r).data_
      ≡ last_value section key r.current_section is (stored section key r.data_)
unfolding read_lines store
stored-read_lines section key [] r h = refl
stored-read_lines section key (entry k v w ∷ is) r h =
    ap (λ (x : LoadState). stored section key (read_lines (map text is) x).data_)
      (read_trimmed-entry_line k v w r h.0.0.0 h.0.0.1 h.0.0.2)
    ∙ (stored-read_lines section key is (store (trim k) (trim v) r) h.1
        ∙ ap (last_value section key r.current_section is)
            (stored-store section key (trim k) (trim v) r))
stored-read_lines section key (header a name b ∷ is) r h =
    ap (λ (x : LoadState). stored section key (read_lines (map text is) x).data_)
      (read_trimmed-header_line a name b r h.0.0.0 h.0.0.1)
    ∙ (stored-read_lines section key is (record r { current_section = trim name }) h.1)
stored-read_lines section key (remark line ∷ is) r h =
    ap (λ (x : LoadState). stored section key (read_lines (map text is) x).data_)
      (read_trimmed-IsRemark (trim line) r h.0.0)
    ∙ (stored-read_lines section key is r h.1)

pub split_lines-line :
    (l s : Bytes) (acc : Bytes)
    → Lacks b'\n' l
    → split_lines acc (l ++ b'\n' ∷ s) ≡ (acc ++ l) ∷ split_lines [] s
unfolding split_lines
split_lines-line [] s acc h = ap (λ (x : Bytes). x ∷ split_lines [] s) (sym (append-nil acc))
split_lines-line (c ∷ l) s acc h = elim (Bool-cases (c == b'\n')) [
  | inl e ↦ absurd (h.0 (ground arith))
  | inr e ↦ rw e (
      split_lines-line l s (acc ++ c ∷ []) h.1
      ∙ ap (λ (x : Bytes). x ∷ split_lines [] s) (append_assoc acc (c ∷ []) l))
]

split_lines-content : (is : List Item) → All IsItem is → split_lines [] (content is) ≡ map text is
unfolding split_lines
split_lines-content [] h = refl
split_lines-content (i ∷ is) h =
    split_lines-line (text i) (content is) [] h.0.1
    ∙ ap (λ (ls : List Bytes). text i ∷ ls) (split_lines-content is h.1)

get-stored :
    (section key default_val : Bytes) (data_ : Table Section)
    → get section key default_val data_ ≡ Option.get_or (stored section key data_) default_val
unfolding get find_key
get-stored section key default_val data_ = elim (Option-cases (find_key section data_)) [
  | inl e ↦ rw (e, get) refl
  | inr (t, e) ↦
      rw (e, get)
        (elim (Option-cases (find_key key t)) [ inl f ↦ rw f refl | inr (v, f) ↦ rw f refl ])
]

-- After a file of well-formed lines is loaded, whatever the object held before, `get` answers with
-- the last value that the file gives the key in the section, trimmed and without its comment, and
-- with the default value if there is none.
pub get-load_from_file :
    (path : Bytes) (is : List Item) (before : Table Section) (section key default_val : Bytes)
    → All IsItem is
    → get section key default_val (load_from_file path (some (content is)) before).0
      ≡ Option.get_or (last_value section key [] is none) default_val
unfolding load_from_file find_key
get-load_from_file path is before section key default_val h =
    get-stored section key default_val (read_lines (split_lines [] (content is)) cleared).data_
    ∙ ap
        (λ (ls : List Bytes).
          Option.get_or (stored section key (read_lines ls cleared).data_) default_val)
        (split_lines-content is h)
    ∙ ap (λ (o : Option Bytes). Option.get_or o default_val)
        (stored-read_lines section key is cleared h)
