-- ===== src/Serial/Frame.antt =====
-- What a telegram is, apart from the machine that looks for it, and the states that the machine
-- reaches.
use hanport_data_parser.Base.{
  ℕ, ◌+◌, ◌<◌, true, false, [], ◌∷◌, ◌++◌, ◌≡◌, refl, sym, ap, ◌∙◌, ◌≢◌, ◌⊎◌, inl, inr, ◌==◌, arith,
  Bool-cases, All-append, length, length-append, append_assoc,
}
use hanport_data_parser.Base.Bytes.{Bytes, Lacks}
use hanport_data_parser.Serial.{Reader, start, crc_size, Progress, more, complete, read_byte}

-- `/`, data without `/` and `!`, then `!` and four checksum bytes other than `/`.
pub record IsFrame (m : Bytes) : Type 0 where
  pub body : Bytes
  pub crc : Bytes
  pub parts : m ≡ b'/' ∷ (body ++ b'!' ∷ crc)
  pub no_start : Lacks b'/' body
  pub no_end : Lacks b'!' body
  pub crc_length : length crc ≡ crc_size
  pub crc_no_start : Lacks b'/' crc

-- The state inside the data, and behind `!`.
abbrev pub in_body : Bytes → Reader
in_body body = record {
  message = b'/' ∷ body;
  reading_message = true;
  end_found = false;
  crc_bytes_read = 0;
}

abbrev pub in_crc : Bytes → Bytes → Reader
in_crc body crc = record {
  message = b'/' ∷ (body ++ b'!' ∷ crc);
  reading_message = true;
  end_found = true;
  crc_bytes_read = length crc;
}

pub data Phase (r : Reader) : Type 0 where
  idle : r ≡ start → Phase r
  inside : (body : Bytes) → Lacks b'/' body → Lacks b'!' body → r ≡ in_body body → Phase r
  trailing :
      (body crc : Bytes)
      → Lacks b'/' body
      → Lacks b'!' body
      → Lacks b'/' crc
      → length crc < crc_size
      → r ≡ in_crc body crc
      → Phase r

-- How the message grows with a byte: it stays empty, starts anew with the byte, or takes it on.
abbrev pub Grows : Bytes → ℕ → Bytes → Type 0
Grows m b m' = (m' ≡ []) ⊎ (m' ≡ b ∷ []) ⊎ (m' ≡ m ++ b ∷ [])

-- What one byte does to a state of the machine.
abbrev pub After : Reader → ℕ → Progress → Type 0
After r b (more r') = Phase r' × Grows r.message b r'.message
After r b (complete m) = IsFrame m × (m ≡ r.message ++ b ∷ [])

-- A byte that starts a telegram anew, whatever the state.
pub read_byte-slash : (r : Reader) → read_byte r b'/' ≡ more (in_body [])
unfolding read_byte
read_byte-slash r = refl

module _ (b : ℕ) (not_start : b ≢ b'/') where
  pub read_byte-start : read_byte start b ≡ more start
  unfolding read_byte
  read_byte-start = ground arith

  pub read_byte-in_body :
      (body : Bytes) → b ≢ b'!' → read_byte (in_body body) b ≡ more (in_body (body ++ b ∷ []))
  unfolding read_byte
  read_byte-in_body body n = ground arith

  pub read_byte-in_crc :
      (body crc : Bytes)
      → length crc + 1 < crc_size
      → read_byte (in_crc body crc) b ≡ more (in_crc body (crc ++ b ∷ []))
  unfolding read_byte
  read_byte-in_crc body crc h =
      let grown = length-append crc (b ∷ []) in
      let text = append_assoc body (b'!' ∷ crc) (b ∷ []) in ground arith

  pub read_byte-last :
      (body crc : Bytes)
      → length crc + 1 ≡ crc_size
      → read_byte (in_crc body crc) b ≡ complete (b'/' ∷ (body ++ b'!' ∷ (crc ++ b ∷ [])))
  unfolding read_byte
  read_byte-last body crc h = let text = append_assoc body (b'!' ∷ crc) (b ∷ []) in ground arith

pub read_byte-marker : (body : Bytes) → read_byte (in_body body) b'!' ≡ more (in_crc body [])
unfolding read_byte
read_byte-marker body = refl

Lacks-concat : {c : ℕ} (b : ℕ) (xs : Bytes) → Lacks c xs → b ≢ c → Lacks c (xs ++ b ∷ [])
Lacks-concat {c} b xs l n = All-append (λ x. x ≢ c) xs (b ∷ []) l (n, tt)

-- One byte keeps the machine in one of its phases, or completes a telegram.
pub read_byte-After : (r : Reader) (b : ℕ) → Phase r → After r b (read_byte r b)
read_byte-After r b ph = elim (Bool-cases (b == b'/')) [
  | inl e ↦
      let s : b ≡ b'/' = ground arith in
      rw s (rw (read_byte-slash r) (inside [] tt tt refl, inr (inl refl)))
  | inr e ↦ other (ground arith) ph
]
  where
    other : b ≢ b'/' → Phase r → After r b (read_byte r b)
    other n (idle p) = rw p (rw (read_byte-start b n) (idle refl, inl refl))
    other n (inside body l l' p) = elim (Bool-cases (b == b'!')) [
      | inl e ↦
          let s : b ≡ b'!' = ground arith in
          rw (p, s)
            (rw (read_byte-marker body)
              (trailing body [] l l' tt (omega arith) refl, inr (inr refl)))
      | inr e ↦
          let n' : b ≢ b'!' = ground arith in
          rw p (
            rw (read_byte-in_body b n body n') (
              inside (body ++ b ∷ []) (Lacks-concat b body l n) (Lacks-concat b body l' n') refl,
              inr (inr refl),
            ))
    ]
    other n (trailing body crc l l' k h p) = elim (Bool-cases (length crc + 1 == crc_size)) [
      | inl e ↦
          let full : length crc + 1 ≡ crc_size = ground arith in
          rw p (
            rw (read_byte-last b n body crc full) (
              record {
                body = body;
                crc = crc ++ b ∷ [];
                parts = refl;
                no_start = l;
                no_end = l';
                crc_length = length-append crc (b ∷ []) ∙ full;
                crc_no_start = Lacks-concat b crc k n;
              },
              ap (◌∷◌ b'/') (sym (append_assoc body (b'!' ∷ crc) (b ∷ []))),
            ))
      | inr e ↦
          let room : length crc + 1 < crc_size = ground arith in
          rw p (
            rw (read_byte-in_crc b n body crc room) (
              trailing body (crc ++ b ∷ []) l l' (Lacks-concat b crc k n)
                  (omega (arith, length-append crc (b ∷ []))) refl,
              inr (inr (ap (◌∷◌ b'/') (sym (append_assoc body (b'!' ∷ crc) (b ∷ []))))),
            ))
    ]
