-- ===== src/Logger/Entry.antt =====
-- Reading a log back.
use hanport_data_parser.Base.{
  List, [], ◌∷◌, ◌++◌, some, ◌≡◌, refl, sym, ap, ◌∙◌, ◌≢◌, ◌==◌, if◌then◌else◌, All, append_assoc,
  append-nil, arith,
}
use hanport_data_parser.Base.Bytes.{Bytes, Lacks, append_left_inj, mark_inj, cons_inj}
use hanport_data_parser.Logger.{
  LogLevel, debug, info, warn, error, critical, level_to_string, HpLogger, construct, log_entry,
  log,
}

-- A call of `log`, with the time at which it is made.
pub record Entry : Type 0 where
  pub timestamp : Bytes
  pub level : LogLevel
  pub message : Bytes

-- A time stamp has no bracket, and the message is one line.
abbrev pub IsEntry : Entry → Type 0
IsEntry e = Lacks b']' e.timestamp × Lacks b'\n' e.message

abbrev pub log_all : List Entry → HpLogger → HpLogger
log_all [] l = l
log_all (e ∷ es) l = log_all es (log e.timestamp e.level e.message l)

abbrev entry_text : Entry → Bytes
entry_text e = log_entry e.timestamp e.level e.message

abbrev texts : List Entry → Bytes
texts [] = []
texts (e ∷ es) = entry_text e ++ texts es

log_all-texts :
    (es : List Entry) (file : Bytes)
    → log_all es (construct (some file)) ≡ construct (some (file ++ texts es))
unfolding log construct
log_all-texts [] file = ap (λ (f : Bytes). construct (some f)) (sym (append-nil file))
log_all-texts (e ∷ es) file =
    log_all-texts es (file ++ entry_text e)
    ∙ ap (λ (f : Bytes). construct (some f)) (append_assoc file (entry_text e) (texts es))

-- The levels begin with different letters.
abbrev level_of : Bytes → LogLevel
level_of [] = critical
level_of (c ∷ s) =
    if c == b'D'
    then debug
    else if c == b'I'
    then info
    else if c == b'W'
    then warn
    else if c == b'E'
    then error
    else critical

level_of-level_to_string : (l : LogLevel) → level_of (level_to_string l) ≡ l
unfolding level_to_string
level_of-level_to_string debug = refl
level_of-level_to_string info = refl
level_of-level_to_string warn = refl
level_of-level_to_string error = refl
level_of-level_to_string critical = refl

level_to_string-Lacks : (l : LogLevel) → Lacks b':' (level_to_string l)
unfolding level_to_string
level_to_string-Lacks debug = omega arith
level_to_string-Lacks info = omega arith
level_to_string-Lacks warn = omega arith
level_to_string-Lacks error = omega arith
level_to_string-Lacks critical = omega arith

-- An entry in front of a rest, cut at its marks.
entry_text-append :
    (e : Entry) (rest : Bytes)
    → entry_text e ++ rest
      ≡ b'['
        ∷ (e.timestamp
            ++ b']'
              ∷ (b' ' ∷ (level_to_string e.level ++ b':' ∷ (b' ' ∷ (e.message ++ b'\n' ∷ rest)))))
unfolding log_entry
entry_text-append e rest = simp append_assoc refl

entry_inj :
    (e f : Entry) (s t : Bytes)
    → IsEntry e
    → IsEntry f
    → entry_text e ++ s ≡ entry_text f ++ t
    → (e ≡ f) × (s ≡ t)
entry_inj e f s t he hf h =
    let opened = cons_inj b'[' _ _ (sym (entry_text-append e s) ∙ h ∙ entry_text-append f t) in
    let (times, r₁) = mark_inj b']' e.timestamp f.timestamp _ _ he.0 hf.0 opened in
    let (names, r₂) =
      mark_inj b':' (level_to_string e.level) (level_to_string f.level) _ _
        (level_to_string-Lacks e.level) (level_to_string-Lacks f.level) (cons_inj b' ' _ _ r₁) in
    let (messages, rest) =
      mark_inj b'\n' e.message f.message s t he.1 hf.1 (cons_inj b' ' _ _ r₂) in
    let levels : e.level ≡ f.level =
      sym (level_of-level_to_string e.level)
      ∙ ap level_of names
      ∙ level_of-level_to_string f.level in
    (same e f times levels messages, rest)
  where
    same :
        (a b : Entry)
        → a.timestamp ≡ b.timestamp
        → a.level ≡ b.level
        → a.message ≡ b.message
        → a ≡ b
    same a b p q r = cc

entry_text-ne : (e : Entry) (s : Bytes) → entry_text e ++ s ≢ []
entry_text-ne e s h = let none_left = sym (entry_text-append e s) ∙ h in cc

texts_inj : (es fs : List Entry) → All IsEntry es → All IsEntry fs → texts es ≡ texts fs → es ≡ fs
texts_inj [] [] he hf h = refl
texts_inj [] (f ∷ fs) he hf h = absurd (entry_text-ne f (texts fs) (sym h))
texts_inj (e ∷ es) [] he hf h = absurd (entry_text-ne e (texts es) h)
texts_inj (e ∷ es) (f ∷ fs) he hf h =
    let (heads, tails) = entry_inj e f (texts es) (texts fs) he.0 hf.0 h in
    let rest = texts_inj es fs he.1 hf.1 tails in cc

-- A log that was written to an open file can be read back: two lists of calls that leave the same
-- file behind are the same, where time stamps have no bracket and messages are single lines.
pub log_all_inj :
    (file : Bytes) (es fs : List Entry)
    → All IsEntry es
    → All IsEntry fs
    → (log_all es (construct (some file))).log_file_
      ≡ (log_all fs (construct (some file))).log_file_
    → es ≡ fs
unfolding construct
log_all_inj file es fs he hf h =
    let left = ap (λ (l : HpLogger). l.log_file_) (log_all-texts es file) in
    let right = ap (λ (l : HpLogger). l.log_file_) (log_all-texts fs file) in
    texts_inj es fs he hf
      (append_left_inj file (texts es) (texts fs) (some_inj _ _ (sym left ∙ h ∙ right)))
  where
    some_inj : (a b : Bytes) → some a ≡ some b → a ≡ b
    some_inj a b e = cc
