-- ===== src/Logger.antt =====
-- `hpLogger` (src/hpLogger.cpp, include/hpLogger.hpp): lines with a time and a level, appended to a
-- file. The file is the bytes that it holds, or `none` if it could not be opened; the time stamp
-- is what `strftime` gives, a parameter.
pub mod Entry
use hanport_data_parser.Base.{ℕ, ◌≡◌, List, [], ◌∷◌, ◌++◌, Option, none, some}
use hanport_data_parser.Base.Bytes.{Bytes, codes}

-- The enumeration has no other values.
pub data LogLevel : Type 0 where
  debug info warn error critical : LogLevel

pub level_to_string : LogLevel → Bytes
level_to_string debug = codes "DEBUG"
level_to_string info = codes "INFO"
level_to_string warn = codes "WARN"
level_to_string error = codes "ERROR"
level_to_string critical = codes "CRITICAL"

pub record HpLogger : Type 0 where
  pub log_file_ : Option Bytes

-- The constructor, with what the file holds before it is opened to append.
unfoldable pub construct : Option Bytes → HpLogger
construct file = record { log_file_ = file }

-- The entry that `log` builds, `std::endl` included.
pub log_entry : Bytes → LogLevel → Bytes → Bytes
unfolding level_to_string
log_entry timestamp level message =
    codes "["
    ++ (timestamp
        ++ (codes "] " ++ (level_to_string level ++ (codes ": " ++ (message ++ codes "\n")))))

-- A message for a file that is not open is dropped.
unfoldable pub log : Bytes → LogLevel → Bytes → HpLogger → HpLogger
unfolding log_entry
log timestamp level message l = elim l.log_file_ [
  | none ↦ l
  | some file ↦ record l { log_file_ = some (file ++ log_entry timestamp level message) }
]
