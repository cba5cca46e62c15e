-- ===== src/Serial/Batch.antt =====
-- Calls of `read` of which the last one brings the end of a telegram.
use hanport_data_parser.Base.{
  ◌<◌, List, [], ◌∷◌, ◌++◌, ◌≡◌, refl, sym, ap, ◌∙◌, arith, length, length-append,
}
use hanport_data_parser.Base.Bytes.{Bytes}
use hanport_data_parser.Serial.{
  Reader, start, more, complete, read_chunk, Read, nothing, chunk, returned, hp_read_from, hp_read,
}
use hanport_data_parser.Serial.Scan.{
  Scan, found, pending, scan, scan-append, onward, progress, read_chunk-scan, stream,
}

module _ (rest : List Read) where
  -- Calls that complete no telegram are used up.
  hp_read_from-pending :
      (front : List Read) (r r' : Reader)
      → scan r (stream front) ≡ pending r'
      → hp_read_from r (front ++ rest) ≡ hp_read_from r' rest
  unfolding hp_read_from scan
  hp_read_from-pending [] r r' e = cc
  hp_read_from-pending (nothing ∷ front) r r' e = hp_read_from-pending front r r' e
  hp_read_from-pending (chunk bytes ∷ front) r r' e =
      rw (read_chunk-scan bytes r, hp_read_from)
        (by_scan (scan r bytes) (sym (scan-append bytes (stream front) r) ∙ e)
          (λ r''. hp_read_from-pending front r'' r'))
    where
      by_scan :
          (s : Scan)
          → onward s (stream front) ≡ pending r'
          → ((r'' : Reader)
              → scan r'' (stream front) ≡ pending r'
              → hp_read_from r'' (front ++ rest) ≡ hp_read_from r' rest)
          → (elim (progress s) [
            | more r'' ↦ hp_read_from r'' (front ++ rest)
            | complete m ↦ returned m (front ++ rest)
          ])
            ≡ hp_read_from r' rest
      by_scan (found m lost) g further = absurd cc
      by_scan (pending r'') g further = further r'' g

-- If a telegram ends in the last chunk, it is returned, and the calls behind that chunk are left.
pub hp_read-batch :
    (front later : List Read) (last m lost : Bytes)
    → scan start (stream front ++ last) ≡ found m lost
    → length lost < length last
    → hp_read (front ++ chunk last ∷ later) ≡ returned m later
unfolding hp_read
hp_read-batch front later last m lost e h =
    by_scan (scan start (stream front)) refl (sym (scan-append (stream front) last start) ∙ e)
  where
    last_chunk :
        (r : Reader)
        → read_chunk r last ≡ complete m
        → hp_read_from r (chunk last ∷ later) ≡ returned m later
    last_chunk r g = rw (g, hp_read_from) refl

    by_scan :
        (s : Scan)
        → scan start (stream front) ≡ s
        → onward s last ≡ found m lost
        → hp_read_from start (front ++ chunk last ∷ later) ≡ returned m later
    by_scan (found m' behind) f g =
        let same : behind ++ last ≡ lost = cc in
        absurd (omega (arith, h, length-append behind last, ap length same))
    by_scan (pending r) f g =
        hp_read_from-pending (chunk last ∷ later) front start r f
        ∙ last_chunk r (read_chunk-scan last r ∙ ap progress g)
