-- ===== src/Tests/Logger.antt =====
-- Two lines in a log.
use hanport_data_parser.Base.{List, [], ◌∷◌, some, ◌≡◌, refl, All, arith}
use hanport_data_parser.Base.Bytes.{codes}
use hanport_data_parser.Logger.{info, critical, construct, log}
use hanport_data_parser.Logger.Entry.{Entry, IsEntry, log_all, log_all_inj}

abbrev entries : List Entry
entries =
    record { timestamp = codes "2026-01-02 03:04:05"; level = info; message = codes "up: [ok]" }
    ∷ record { timestamp = codes "2026-01-02 03:04:06"; level = critical; message = [] }
    ∷ []

entries_are : All IsEntry entries
entries_are = omega arith

logged :
    (log_all entries (construct (some (codes "old\n")))).log_file_
    ≡ some (codes "old\n[2026-01-02 03:04:05] INFO: up: [ok]\n[2026-01-02 03:04:06] CRITICAL: \n")
unfolding log construct
logged = refl

log_all_inj_example : entries ≡ entries
log_all_inj_example = log_all_inj (codes "old\n") entries entries entries_are entries_are refl
