-- ===== src/Serial/Resync.antt =====
-- Every telegram is found: the machine takes up a new `/` in any state.
use hanport_data_parser.Base.{
  ℕ, ◌+◌, List, [], ◌∷◌, ◌++◌, ◌≡◌, refl, sym, ap, ◌∙◌, ◌↔◌, arith, length, length-append,
  append-nil, append_assoc,
}
use hanport_data_parser.Base.Bytes.{Bytes, Lacks}
use hanport_data_parser.Serial.{
  Reader, start, crc_size, Read, ReadOutcome, returned, waiting, hp_read_from, hp_read,
}
use hanport_data_parser.Serial.Frame.{
  IsFrame, in_body, in_crc, read_byte-slash, read_byte-in_body, read_byte-marker, read_byte-in_crc,
  read_byte-last,
}
use hanport_data_parser.Serial.Sound.{hp_read-IsReceived}
use hanport_data_parser.Serial.Scan.{
  Scan, found, pending, scan, scan-more, scan-complete, scan-append, onward, stream, Agrees,
  hp_read_from-Agrees,
}

scan-in_body :
    (body done rest : Bytes)
    → Lacks b'/' body
    → Lacks b'!' body
    → scan (in_body done) (body ++ rest) ≡ scan (in_body (done ++ body)) rest
scan-in_body [] done rest l l' = rw append-nil
scan-in_body (b ∷ body) done rest l l' =
    scan-more b (body ++ rest) (in_body done) (in_body (done ++ b ∷ []))
      (read_byte-in_body b l.0 done l'.0)
    ∙ scan-in_body body (done ++ b ∷ []) rest l.1 l'.1
    ∙ rw append_assoc

scan-in_crc :
    (body crc : Bytes) (c : ℕ) (done rest : Bytes)
    → Lacks b'/' (c ∷ crc)
    → length done + length (c ∷ crc) ≡ crc_size
    → scan (in_crc body done) (c ∷ crc ++ rest)
      ≡ found (b'/' ∷ (body ++ b'!' ∷ (done ++ c ∷ crc))) rest
scan-in_crc body [] c done rest l e =
    scan-complete c rest (in_crc body done) _ (read_byte-last c l.0 body done e)
scan-in_crc body (d ∷ crc) c done rest l e =
    scan-more c (d ∷ crc ++ rest) (in_crc body done) (in_crc body (done ++ c ∷ []))
      (read_byte-in_crc c l.0 body done (omega arith))
    ∙ scan-in_crc body crc d (done ++ c ∷ []) rest l.1 (omega (arith, length-append done (c ∷ [])))
    ∙ rw append_assoc

scan-crc :
    (body crc rest : Bytes)
    → Lacks b'/' crc
    → length crc ≡ crc_size
    → scan (in_crc body []) (crc ++ rest) ≡ found (b'/' ∷ (body ++ b'!' ∷ crc)) rest
scan-crc body [] rest l e = absurd (omega arith)
scan-crc body (c ∷ crc) rest l e = scan-in_crc body crc c [] rest l (omega arith)

scan-parts :
    (body crc rest : Bytes) (r : Reader)
    → Lacks b'/' body
    → Lacks b'!' body
    → Lacks b'/' crc
    → length crc ≡ crc_size
    → scan r (b'/' ∷ (body ++ b'!' ∷ crc) ++ rest) ≡ found (b'/' ∷ (body ++ b'!' ∷ crc)) rest
scan-parts body crc rest r l l' k e =
    scan-more b'/' ((body ++ b'!' ∷ crc) ++ rest) r (in_body []) (read_byte-slash r)
    ∙ ap (scan (in_body [])) (append_assoc body (b'!' ∷ crc) rest)
    ∙ scan-in_body body [] (b'!' ∷ crc ++ rest) l l'
    ∙ scan-more b'!' (crc ++ rest) (in_body body) (in_crc body []) (read_byte-marker body)
    ∙ scan-crc body crc rest k e

-- From every state, even in the middle of another telegram, a telegram is found as it begins.
pub scan-IsFrame : (m rest : Bytes) (r : Reader) → IsFrame m → scan r (m ++ rest) ≡ found m rest
scan-IsFrame m rest r f =
    ap (λ (t : Bytes). scan r (t ++ rest)) f.parts
    ∙ scan-parts f.body f.crc rest r f.no_start f.no_end f.crc_no_start f.crc_length
    ∙ ap (λ (t : Bytes). found t rest) (sym f.parts)

-- The calls of `read` returned a message.
abbrev pub Returns : ReadOutcome → Type 0
Returns o = (m : Bytes) × (later : List Read) × (o ≡ returned m later)

hp_read-found :
    (reads : List Read) (m rest : Bytes)
    → scan start (stream reads) ≡ found m rest
    → (later : List Read) × (hp_read reads ≡ returned m later)
unfolding hp_read
hp_read-found reads m rest scanned =
    by_outcome (hp_read_from start reads) (rw scanned at (hp_read_from-Agrees reads start))
  where
    by_outcome :
        (o : ReadOutcome)
        → Agrees reads (found m rest) o
        → (later : List Read) × (o ≡ returned m later)
    by_outcome (returned m' later) a = (later, ap (λ (t : Bytes). returned t later) a.0)
    by_outcome (waiting r') a = absurd a

module _ (reads : List Read) (before m rest : Bytes) (e : stream reads ≡ before ++ m ++ rest) where
  scan-stream : scan start (stream reads) ≡ onward (scan start before) (m ++ rest)
  scan-stream =
      ap (scan start) (e ∙ append_assoc before m rest) ∙ scan-append before (m ++ rest) start

-- Resynchronisation: a telegram that comes behind bytes which complete none is the message that is
-- returned, whatever those bytes are and however the bytes fall into chunks.
pub hp_read-frame :
    (reads : List Read) (noise m rest : Bytes) (r : Reader)
    → IsFrame m
    → stream reads ≡ noise ++ m ++ rest
    → scan start noise ≡ pending r
    → (later : List Read) × (hp_read reads ≡ returned m later)
hp_read-frame reads noise m rest r f e quiet = hp_read-found reads m rest (
    scan-stream reads noise m rest e
    ∙ ap (λ (s : Scan). onward s (m ++ rest)) quiet
    ∙ scan-IsFrame m rest r f)

-- The bytes hold a telegram.
abbrev pub HoldsFrame : Bytes → Type 0
HoldsFrame bytes =
    (before : Bytes) × (m : Bytes) × (rest : Bytes) × IsFrame m × (bytes ≡ before ++ m ++ rest)

hp_read-HoldsFrame : (reads : List Read) → HoldsFrame (stream reads) → Returns (hp_read reads)
hp_read-HoldsFrame reads (before, m, rest, f, e) = by_scan (scan start before) refl
  where
    by_scan : (s : Scan) → scan start before ≡ s → Returns (hp_read reads)
    by_scan (pending r) quiet =
        let (later, p) = hp_read-frame reads before m rest r f e quiet in (m, later, p)
    by_scan (found m' rest') early =
        let (later, p) = hp_read-found reads m' (rest' ++ m ++ rest) (
          scan-stream reads before m rest e
          ∙ ap (λ (s : Scan). onward s (m ++ rest)) early
          ∙ ap (found m') (sym (append_assoc rest' m rest))) in
        (m', later, p)

-- `hpRead` returns exactly when the bytes that the serial port delivered hold a telegram.
pub hp_read-Returns_iff : (reads : List Read) → Returns (hp_read reads) ↔ HoldsFrame (stream reads)
hp_read-Returns_iff reads = (
  λ (m, later, p).
      let received = hp_read-IsReceived reads later m p in
      (received.before, m, received.rest, received.is_frame, received.in_stream),
  hp_read-HoldsFrame reads,
)

-- The message or the state of two outcomes is the same.
abbrev pub SameMessage : ReadOutcome → ReadOutcome → Type 0
SameMessage (returned m _) (returned m' _) = m ≡ m'
SameMessage (waiting r) (waiting r') = r ≡ r'
SameMessage _ _ = ⊥

-- How the bytes fall into chunks does not matter: the same bytes give the same message, or leave
-- the machine in the same state.
pub hp_read-rechunk :
    (xs ys : List Read) → stream xs ≡ stream ys → SameMessage (hp_read xs) (hp_read ys)
unfolding hp_read
hp_read-rechunk xs ys e =
    both (scan start (stream xs)) (hp_read_from start xs) (hp_read_from start ys)
      (hp_read_from-Agrees xs start) (rw e (hp_read_from-Agrees ys start))
  where
    both : (s : Scan) (o o' : ReadOutcome) → Agrees xs s o → Agrees ys s o' → SameMessage o o'
    both (found m rest) (returned a _) (returned b _) p q = p.0 ∙ sym q.0
    both (found m rest) (returned a _) (waiting _) p q = q
    both (found m rest) (waiting _) o' p q = absurd p
    both (pending r) (waiting a) (waiting b) p q = p ∙ sym q
    both (pending r) (waiting a) (returned _ _) p q = q
    both (pending r) (returned _ _) o' p q = absurd p
