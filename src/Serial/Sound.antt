-- ===== src/Serial/Sound.antt =====
-- Whatever `hpRead` returns is a telegram, and stands in the stream as it was sent.
use mathlib.Core.Path.{subst}
use hanport_data_parser.Base.{
  ℕ, List, [], ◌∷◌, ◌++◌, ◌≡◌, refl, sym, inl, inr, append-nil, append_assoc,
}
use hanport_data_parser.Base.Bytes.{Bytes}
use hanport_data_parser.Serial.{Reader, start, more, complete, read_byte, Read, returned, hp_read}
use hanport_data_parser.Serial.Frame.{IsFrame, Phase, idle, Grows, After, read_byte-After}
use hanport_data_parser.Serial.Scan.{
  Scan, found, pending, scan, scan-more, scan-complete, read-cases, stream, Leaves, Agrees,
  hp_read_from-Agrees,
}

-- The message is the end of what was read so far.
abbrev IsSuffix : Bytes → Bytes → Type 0
IsSuffix m seen = (before : Bytes) × (seen ≡ before ++ m)

Grows-IsSuffix :
    (m m' seen : Bytes) (b : ℕ) → Grows m b m' → IsSuffix m seen → IsSuffix m' (seen ++ b ∷ [])
Grows-IsSuffix m m' seen b (inl e) (before, p) = (seen ++ b ∷ [], rw (e, append-nil))
Grows-IsSuffix m m' seen b (inr (inl e)) (before, p) = (seen, rw e)
Grows-IsSuffix m m' seen b (inr (inr e)) (before, p) = (before, rw (p, e, append_assoc))

-- A telegram that was found, with the bytes before it, in the stream of all bytes.
abbrev pub IsFound : Scan → Bytes → Type 0
IsFound (found m rest) all = IsFrame m × ((before : Bytes) × (all ≡ before ++ m ++ rest))
IsFound (pending r) all = Phase r

scan-IsFound :
    (bs seen : Bytes) (r : Reader)
    → Phase r
    → IsSuffix r.message seen
    → IsFound (scan r bs) (seen ++ bs)
unfolding scan
scan-IsFound [] seen r ph s = ph
scan-IsFound (b ∷ bs) seen r ph s = elim (read-cases (read_byte r b)) [
  | inl (r', e) ↦
      let after : After r b (more r') = rw e at (read_byte-After r b ph) in
      rw (scan-more b bs r r' e, ← append_assoc seen (b ∷ []) bs)
        (scan-IsFound bs (seen ++ b ∷ []) r' after.0
          (Grows-IsSuffix r.message r'.message seen b after.1 s))
  | inr (m, e) ↦
      let after : After r b (complete m) = rw e at (read_byte-After r b ph) in
      rw (scan-complete b bs r m e) (after.0, (s.0, rw (s.1, after.1) (simp append_assoc)))
]

pub scan-start-IsFound : (bs : Bytes) → IsFound (scan start bs) bs
scan-start-IsFound bs = scan-IsFound bs [] start (idle refl) ([], refl)

-- `m` is a telegram and stands in one piece in what `reads` delivers. What follows it there is the
-- end of its chunk, which is lost, and what `later` delivers.
pub record IsReceived (reads : List Read) (m : Bytes) (later : List Read) : Type 0 where
  pub is_frame : IsFrame m
  pub before : Bytes
  pub rest : Bytes
  pub in_stream : stream reads ≡ before ++ m ++ rest
  pub leaves : Leaves reads rest later

-- A returned message is a telegram: `/`, data without `/` and `!`, then `!` and four checksum bytes
-- other than `/`. It stands in one piece in the bytes that the calls of `read` delivered. The calls
-- that are left are the last ones, and of the bytes behind the message only the end of the chunk
-- just before them is lost.
pub hp_read-IsReceived :
    (reads later : List Read) (m : Bytes)
    → hp_read reads ≡ returned m later
    → IsReceived reads m later
unfolding hp_read
hp_read-IsReceived reads later m e =
    by_scan (scan start (stream reads)) (scan-start-IsFound (stream reads))
      (rw e at (hp_read_from-Agrees reads start))
  where
    by_scan :
        (s : Scan)
        → IsFound s (stream reads)
        → Agrees reads s (returned m later)
        → IsReceived reads m later
    by_scan (pending r) f a = absurd a
    by_scan (found m' rest) f a = record {
      is_frame = subst IsFrame (sym a.0) f.0;
      before = f.1.0;
      rest = rest;
      in_stream = rw a.0 f.1.1;
      leaves = a.1;
    }
