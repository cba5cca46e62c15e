-- ===== src/Serial/Scan.antt =====
-- `hpRead` on the plain stream of bytes: how the bytes fall into chunks does not matter to what is
-- returned, only to what is lost behind it.
use hanport_data_parser.Base.{ap, ℕ, ◌⊎◌, inl, inr, List, [], ◌∷◌, ◌++◌, ◌≡◌, refl}
use hanport_data_parser.Base.Bytes.{Bytes}
use hanport_data_parser.Serial.{
  Reader, Progress, more, complete, read_byte, read_chunk, Read, nothing, chunk, ReadOutcome,
  returned, waiting, hp_read_from,
}

-- The first telegram of a stream with the bytes behind it, or the state at the stream's end.
pub data Scan : Type 0 where
  found : Bytes → Bytes → Scan
  pending : Reader → Scan

unfoldable pub scan : Reader → Bytes → Scan
scan r [] = pending r
scan r (b ∷ bs) = elim (read_byte r b) [ more r' ↦ scan r' bs | complete m ↦ found m bs ]

-- All bytes that the calls of `read` deliver.
abbrev pub stream : List Read → Bytes
stream [] = []
stream (nothing ∷ reads) = stream reads
stream (chunk bytes ∷ reads) = bytes ++ stream reads

module _ (b : ℕ) (bs : Bytes) (r : Reader) where
  pub scan-more : (r' : Reader) → read_byte r b ≡ more r' → scan r (b ∷ bs) ≡ scan r' bs
  unfolding scan
  scan-more r' e = rw (e, scan)

  pub scan-complete : (m : Bytes) → read_byte r b ≡ complete m → scan r (b ∷ bs) ≡ found m bs
  unfolding scan
  scan-complete m e = rw (e, scan)

pub read-cases : (p : Progress) → ((r : Reader) × (p ≡ more r)) ⊎ ((m : Bytes) × (p ≡ complete m))
read-cases (more r) = inl (r, refl)
read-cases (complete m) = inr (m, refl)

-- What `scan` says of two texts in a row.
abbrev pub onward : Scan → Bytes → Scan
onward (found m rest) ys = found m (rest ++ ys)
onward (pending r) ys = scan r ys

pub scan-append : (xs ys : Bytes) (r : Reader) → scan r (xs ++ ys) ≡ onward (scan r xs) ys
unfolding scan
scan-append [] ys r = refl
scan-append (b ∷ xs) ys r = elim (read-cases (read_byte r b)) [
  | inl (r', e) ↦ rw (e, scan) (scan-append xs ys r')
  | inr (m, e) ↦ rw (e, scan)
]

-- A chunk gives what its bytes give, without the bytes behind a telegram.
abbrev pub progress : Scan → Progress
progress (found m rest) = complete m
progress (pending r) = more r

pub read_chunk-scan : (xs : Bytes) (r : Reader) → read_chunk r xs ≡ progress (scan r xs)
unfolding scan read_chunk
read_chunk-scan [] r = refl
read_chunk-scan (b ∷ xs) r = elim (read-cases (read_byte r b)) [
  | inl (r', e) ↦ rw (e, read_chunk, scan) (read_chunk-scan xs r')
  | inr (m, e) ↦ rw (e, read_chunk, scan)
]

-- Of `reads`, those in `later` are left, and `rest` is what follows in the stream: `lost`, the end of
-- the chunk in which a message ended, and then the bytes of `later`.
pub record Leaves (reads : List Read) (rest : Bytes) (later : List Read) : Type 0 where
  pub used : List Read
  pub taken : Bytes
  pub lost : Bytes
  pub splits : reads ≡ used ++ chunk (taken ++ lost) ∷ later
  pub left : rest ≡ lost ++ stream later

-- The calls of `read` agree with the scan of their stream: both wait in one state, or both give
-- one message, and of the bytes behind it `hpRead` leaves those of the later calls.
abbrev pub Agrees : List Read → Scan → ReadOutcome → Type 0
Agrees reads (found m rest) (returned m' later) = (m' ≡ m) × Leaves reads rest later
Agrees reads (pending r) (waiting r') = r' ≡ r
Agrees reads (found m rest) (waiting r) = ⊥
Agrees reads (pending r) (returned m later) = ⊥

Agrees-cons :
    (x : Read) (reads : List Read) (s : Scan) (o : ReadOutcome)
    → Agrees reads s o
    → Agrees (x ∷ reads) s o
Agrees-cons x reads (found m rest) (returned m' later) (e, l) = (
  e,
  record {
    used = x ∷ l.used;
    taken = l.taken;
    lost = l.lost;
    splits = ap (◌∷◌ x) l.splits;
    left = l.left;
  },
)
Agrees-cons x reads (pending r) (waiting r') a = a
Agrees-cons x reads (found m rest) (waiting r) a = a
Agrees-cons x reads (pending r) (returned m later) a = a

-- What is behind a message is the end of the text.
abbrev EndsIn : Bytes → Scan → Type 0
EndsIn xs (found m rest) = (taken : Bytes) × (xs ≡ taken ++ rest)
EndsIn xs (pending r) = Unit

EndsIn-cons : (b : ℕ) (xs : Bytes) (s : Scan) → EndsIn xs s → EndsIn (b ∷ xs) s
EndsIn-cons b xs (found m rest) (taken, e) = (b ∷ taken, ap (◌∷◌ b) e)
EndsIn-cons b xs (pending r) e = tt

scan-EndsIn : (xs : Bytes) (r : Reader) → EndsIn xs (scan r xs)
unfolding scan
scan-EndsIn [] r = tt
scan-EndsIn (b ∷ xs) r = elim (read-cases (read_byte r b)) [
  | inl (r', e) ↦ rw (e, scan) (EndsIn-cons b xs (scan r' xs) (scan-EndsIn xs r'))
  | inr (m, e) ↦ rw (e, scan) (b ∷ [], refl)
]

pub hp_read_from-Agrees :
    (reads : List Read) (r : Reader) → Agrees reads (scan r (stream reads)) (hp_read_from r reads)
unfolding scan hp_read_from
hp_read_from-Agrees [] r = refl
hp_read_from-Agrees (nothing ∷ reads) r =
    Agrees-cons nothing reads (scan r (stream reads)) (hp_read_from r reads)
      (hp_read_from-Agrees reads r)
hp_read_from-Agrees (chunk bytes ∷ reads) r = rw (scan-append bytes (stream reads) r) (
    rw (read_chunk-scan bytes r, hp_read_from)
      (by_scan (scan r bytes) (scan-EndsIn bytes r) λ r'. hp_read_from-Agrees reads r'))
  where
    by_scan :
        (s : Scan)
        → EndsIn bytes s
        → ((r' : Reader) → Agrees reads (scan r' (stream reads)) (hp_read_from r' reads))
        → Agrees
            (chunk bytes ∷ reads)
            (onward s (stream reads))
            (elim (progress s) [ more r' ↦ hp_read_from r' reads | complete m ↦ returned m reads ])
    by_scan (found m rest) (taken, e) further = (
      refl,
      record {
        used = [];
        taken = taken;
        lost = rest;
        splits = ap (λ (t : Bytes). chunk t ∷ reads) e;
        left = refl;
      },
    )
    by_scan (pending r') e further =
        Agrees-cons (chunk bytes) reads (scan r' (stream reads)) (hp_read_from r' reads)
          (further r')
