-- ===== src/Main/Arguments.antt =====
-- The command line as a list of options.
use hanport_data_parser.Base.{true, false, List, [], ◌∷◌, ◌≡◌, refl, ◌∙◌, All}
use hanport_data_parser.Base.Bytes.{Bytes}
use hanport_data_parser.Main.{run_with, is_config, is_help, parse_args}

-- `-c path` under either name of the option, or a word that the program does not know.
pub data Argument : Type 0 where
  config : Bytes → Bytes → Argument
  unknown : Bytes → Argument

abbrev pub words : List Argument → List Bytes
words [] = []
words (config flag path ∷ args) = flag ∷ path ∷ words args
words (unknown a ∷ args) = a ∷ words args

abbrev pub IsArgument : Argument → Type 0
IsArgument (config flag path) = is_config flag ≡ true
IsArgument (unknown a) = (is_config a ≡ false) × (is_help a ≡ false)

-- The path of the last `-c`, or the default one.
abbrev pub last_path : List Argument → Bytes → Bytes
last_path [] path = path
last_path (config flag p ∷ args) path = last_path args p
last_path (unknown a ∷ args) path = last_path args path

parse_args-unknown :
    (a : Bytes) (rest : List Bytes) (path : Bytes)
    → is_config a ≡ false
    → is_help a ≡ false
    → parse_args (a ∷ rest) path ≡ parse_args rest path
unfolding parse_args
parse_args-unknown a [] path e f = rw (e, f) refl
parse_args-unknown a (b ∷ rest) path e f = rw (e, f) refl

parse_args-config :
    (flag p : Bytes) (rest : List Bytes) (path : Bytes)
    → is_config flag ≡ true
    → parse_args (flag ∷ p ∷ rest) path ≡ parse_args rest p
unfolding parse_args
parse_args-config flag p rest path e = rw e refl

-- A command line of options with a path and of unknown words runs the program with the path of
-- the last option, and with the given path if there is none. A path may be any word, also one that
-- reads as an option.
pub parse_args-words :
    (args : List Argument) (path : Bytes)
    → All IsArgument args
    → parse_args (words args) path ≡ run_with (last_path args path)
unfolding parse_args
parse_args-words [] path h = refl
parse_args-words (config flag p ∷ args) path h =
    parse_args-config flag p (words args) path h.0 ∙ parse_args-words args p h.1
parse_args-words (unknown a ∷ args) path h =
    parse_args-unknown a (words args) path h.0.0 h.0.1 ∙ parse_args-words args path h.1
