-- ===== src/Config/Entry.antt =====
-- What one line of a configuration file does, printed with any white space and any comment.
use hanport_data_parser.Base.{
  ℕ, suc, ◌+◌, ◌-◌, true, false, [], ◌∷◌, ◌++◌, some, ◌≡◌, refl, ap, ◌∙◌, ◌≢◌, ◌⊎◌, arith,
  append-nil, length, length-append, take, drop, All, take-length-append,
}
use hanport_data_parser.Base.Bytes.{Bytes, Lacks, find, find-append, find-Lacks}
use hanport_data_parser.Base.Numerals.{is_space, skip_spaces}
use hanport_data_parser.Config.{
  keep, trim_end, trim, LoadState, back, earlier, strip_comment, store, read_entry, read_trimmed,
}
use hanport_data_parser.Config.Trim.{
  skip_spaces-append, trim_end-append, trim-skip_spaces, trim-trim_end, skip_spaces-Lacks,
  trim-Lacks,
}

-- A comment behind a value: nothing, or a text that begins with `;` or `#`.
abbrev pub IsComment : Bytes → Type 0
IsComment [] = Unit
IsComment (m ∷ t) = (m ≡ b';') ⊎ (m ≡ b'#')

-- A key has no `=`, and does not begin as a comment or a header does.
abbrev IsKeyStart : Bytes → Type 0
IsKeyStart [] = Unit
IsKeyStart (c ∷ s) = (c ≢ b';') × (c ≢ b'#') × (c ≢ b'[')

abbrev pub IsKey : Bytes → Type 0
IsKey key = Lacks b'=' key × IsKeyStart (skip_spaces key)

abbrev pub IsValue : Bytes → Type 0
IsValue value = Lacks b';' value × Lacks b'#' value

is_space-mark : (m : ℕ) → (m ≡ b';') ⊎ (m ≡ b'#') → is_space m ≡ false
unfolding is_space
is_space-mark m h = ground arith

-- The first of the two marks stands where a value without marks ends.
earlier-mark :
    (v t : Bytes) (m : ℕ)
    → IsValue v
    → (m ≡ b';') ⊎ (m ≡ b'#')
    → earlier (find b';' (v ++ m ∷ t)) (find b'#' (v ++ m ∷ t)) ≡ some (length v)
unfolding earlier find
earlier-mark [] t m h k = ground arith
earlier-mark (c ∷ v) t m h k = ground (arith, earlier-mark v t m (h.0.1, h.1.1) k)

strip_comment-Lacks : (s : Bytes) → IsValue s → strip_comment s ≡ s
unfolding strip_comment
strip_comment-Lacks s h = rw (find-Lacks b';' s h.0, find-Lacks b'#' s h.1, strip_comment) refl

strip_comment-some :
    (s : Bytes) (n : ℕ)
    → earlier (find b';' s) (find b'#' s) ≡ some n
    → strip_comment s ≡ trim (take n s)
unfolding strip_comment
strip_comment-some s n e = rw (e, strip_comment) refl

trim-mark :
    (v t : Bytes) (m : ℕ) → is_space m ≡ false → trim (v ++ m ∷ t) ≡ skip_spaces v ++ m ∷ trim_end t
unfolding trim
trim-mark v t m e = ap trim_end (skip_spaces-append v t m e) ∙ trim_end-append (skip_spaces v) t m e

trim-IsValue : (v : Bytes) → IsValue v → IsValue (trim v)
trim-IsValue v h = (trim-Lacks b';' v h.0, trim-Lacks b'#' v h.1)

-- A comment is cut off, whatever it holds.
strip_comment-comment :
    (v w : Bytes) → IsValue v → IsComment w → strip_comment (trim (v ++ w)) ≡ trim v
strip_comment-comment v [] h k =
    ap (λ (s : Bytes). strip_comment (trim s)) (append-nil v)
    ∙ strip_comment-Lacks (trim v) (trim-IsValue v h)
strip_comment-comment v (m ∷ t) h k =
    let u = skip_spaces v in
    ap strip_comment (trim-mark v t m (is_space-mark m k))
    ∙ strip_comment-some (u ++ m ∷ trim_end t) (length u) (
        earlier-mark u (trim_end t) m (skip_spaces-Lacks b';' v h.0, skip_spaces-Lacks b'#' v h.1)
          k)
    ∙ ap trim (take-length-append u (m ∷ trim_end t))
    ∙ trim-skip_spaces v

-- `key=value ;comment`, with white space of any kind inside the three parts.
abbrev pub entry_line : Bytes → Bytes → Bytes → Bytes
entry_line key value comment = key ++ b'=' ∷ (value ++ comment)

drop-mark : (k w : Bytes) → drop (suc (length k)) (k ++ b'=' ∷ w) ≡ w
drop-mark [] w = refl
drop-mark (c ∷ k) w = drop-mark k w

drop-key : (k w : Bytes) → drop (length k + 1) (k ++ b'=' ∷ w) ≡ w
drop-key k w =
    let e : length k + 1 ≡ suc (length k) = omega arith in
    ap (λ (n : ℕ). drop n (k ++ b'=' ∷ w)) e ∙ drop-mark k w

is_space-equals : is_space b'=' ≡ false
unfolding is_space
is_space-equals = refl

-- The split at the first `=`.
read_entry-split :
    (k w : Bytes) (r : LoadState)
    → Lacks b'=' k
    → read_entry (k ++ b'=' ∷ w) r ≡ store (trim k) (strip_comment (trim w)) r
unfolding read_entry
read_entry-split k w r l =
    rw (find-append b'=' k w l, read_entry)
      (ap
          (λ (s : Bytes).
            store (trim s) (strip_comment (trim (drop (length k + 1) (k ++ b'=' ∷ w)))) r)
          (take-length-append k (b'=' ∷ w))
        ∙ ap (λ (s : Bytes). store (trim k) (strip_comment (trim s)) r) (drop-key k w))

read_trimmed-key :
    (k w : Bytes) (r : LoadState)
    → IsKeyStart k
    → read_trimmed (k ++ b'=' ∷ w) r ≡ read_entry (k ++ b'=' ∷ w) r
unfolding read_trimmed
read_trimmed-key [] w r h = refl
read_trimmed-key (c ∷ k) w r h = ground (arith, h)

-- The line of an entry stores the trimmed value under the trimmed key.
pub read_trimmed-entry_line :
    (key value comment : Bytes) (r : LoadState)
    → IsKey key
    → IsValue value
    → IsComment comment
    → read_trimmed (trim (entry_line key value comment)) r ≡ store (trim key) (trim value) r
read_trimmed-entry_line key value comment r h v w =
    let k = skip_spaces key in
    ap (λ (s : Bytes). read_trimmed s r) (trim-mark key (value ++ comment) b'=' is_space-equals)
    ∙ read_trimmed-key k (trim_end (value ++ comment)) r h.1
    ∙ read_entry-split k (trim_end (value ++ comment)) r (skip_spaces-Lacks b'=' key h.0)
    ∙ ap (λ (s : Bytes). store s (strip_comment (trim (trim_end (value ++ comment)))) r)
        (trim-skip_spaces key)
    ∙ ap (λ (s : Bytes). store (trim key) (strip_comment s) r) (trim-trim_end (value ++ comment))
    ∙ ap (λ (s : Bytes). store (trim key) s r) (strip_comment-comment value comment v w)

-- `[name]`, with white space around the brackets and inside them.
abbrev pub header_line : Bytes → Bytes → Bytes → Bytes
header_line before name behind = before ++ b'[' ∷ (name ++ b']' ∷ behind)

-- White space only.
abbrev pub IsBlank : Bytes → Type 0
IsBlank = All (λ c. is_space c ≡ true)

skip_spaces-IsBlank : (a s : Bytes) → IsBlank a → skip_spaces (a ++ s) ≡ skip_spaces s
unfolding skip_spaces
skip_spaces-IsBlank [] s h = refl
skip_spaces-IsBlank (c ∷ a) s h = rw (h.0) (skip_spaces-IsBlank a s h.1)

trim_end-IsBlank : (b : Bytes) → IsBlank b → trim_end b ≡ []
unfolding trim_end keep
trim_end-IsBlank [] h = refl
trim_end-IsBlank (c ∷ b) h = rw (h.0) (ap (keep c) (trim_end-IsBlank b h.1))

back-concat : (c : ℕ) (s : Bytes) (d : ℕ) → back c (s ++ d ∷ []) ≡ d
unfolding back
back-concat c [] d = refl
back-concat c (e ∷ s) d = back-concat e s d

take-concat : (s : Bytes) (d : ℕ) → take (length (s ++ d ∷ []) - 1) (s ++ d ∷ []) ≡ s
take-concat s d =
    ap (λ (n : ℕ). take n (s ++ d ∷ [])) (omega (arith, length-append s (d ∷ [])))
    ∙ take-length-append s (d ∷ [])

skip_spaces-bracket : (s : Bytes) → skip_spaces (b'[' ∷ s) ≡ b'[' ∷ s
unfolding skip_spaces is_space
skip_spaces-bracket s = refl

is_space-bracket : is_space b']' ≡ false
unfolding is_space
is_space-bracket = refl

trim-header :
    (a name b : Bytes)
    → IsBlank a
    → IsBlank b
    → trim (header_line a name b) ≡ b'[' ∷ (name ++ b']' ∷ [])
unfolding trim
trim-header a name b h k =
    ap trim_end
      (skip_spaces-IsBlank a (b'[' ∷ (name ++ b']' ∷ b)) h ∙ skip_spaces-bracket (name ++ b']' ∷ b))
    ∙ trim_end-append (b'[' ∷ name) b b']' is_space-bracket
    ∙ ap (λ (s : Bytes). b'[' ∷ (name ++ b']' ∷ s)) (trim_end-IsBlank b k)

-- A header names the section by what stands between its brackets, trimmed.
pub read_trimmed-header_line :
    (before name behind : Bytes) (r : LoadState)
    → IsBlank before
    → IsBlank behind
    → read_trimmed (trim (header_line before name behind)) r
      ≡ record r { current_section = trim name }
unfolding read_trimmed
read_trimmed-header_line before name behind r h k =
    ap (λ (s : Bytes). read_trimmed s r) (trim-header before name behind h k)
    ∙ rw (back-concat b'[' name b']', read_trimmed)
        (ap (λ (s : Bytes). record r { current_section = trim s }) (take-concat name b']'))
