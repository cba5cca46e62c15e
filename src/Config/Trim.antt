-- ===== src/Config/Trim.antt =====
-- The laws of `trim` (src/config.cpp).
use hanport_data_parser.Base.{
  ℕ, true, false, [], ◌∷◌, ◌++◌, ◌≡◌, refl, ap, ◌∙◌, inl, inr, Bool-cases,
}
use hanport_data_parser.Base.Bytes.{Bytes, Lacks}
use hanport_data_parser.Base.Numerals.{is_space, skip_spaces}
use hanport_data_parser.Config.{keep, trim_end, trim}

pub skip_spaces-append :
    (v t : Bytes) (m : ℕ) → is_space m ≡ false → skip_spaces (v ++ m ∷ t) ≡ skip_spaces v ++ m ∷ t
unfolding skip_spaces
skip_spaces-append [] t m e = rw e refl
skip_spaces-append (c ∷ v) t m e = elim (Bool-cases (is_space c)) [
  | inl h ↦ rw (h, skip_spaces) (skip_spaces-append v t m e)
  | inr h ↦ rw h refl
]

keep-append : (c m : ℕ) (v t : Bytes) → keep c (v ++ m ∷ t) ≡ c ∷ (v ++ m ∷ t)
unfolding keep
keep-append c m [] t = refl
keep-append c m (d ∷ v) t = refl

pub trim_end-append :
    (v t : Bytes) (m : ℕ) → is_space m ≡ false → trim_end (v ++ m ∷ t) ≡ v ++ m ∷ trim_end t
unfolding trim_end
trim_end-append [] t m e = rw e refl
trim_end-append (c ∷ v) t m e = elim (Bool-cases (is_space c)) [
  | inl h ↦ rw h (ap (keep c) (trim_end-append v t m e) ∙ keep-append c m v (trim_end t))
  | inr h ↦ rw h (ap (◌∷◌ c) (trim_end-append v t m e))
]

pub skip_spaces_idem : (s : Bytes) → skip_spaces (skip_spaces s) ≡ skip_spaces s
unfolding skip_spaces
skip_spaces_idem [] = refl
skip_spaces_idem (c ∷ s) = elim (Bool-cases (is_space c)) [
  | inl h ↦ rw h (skip_spaces_idem s)
  | inr h ↦ rw (h, skip_spaces) (rw h refl)
]

trim_end-keep : (c : ℕ) (s : Bytes) → trim_end s ≡ s → trim_end (keep c s) ≡ keep c s
unfolding trim_end keep
trim_end-keep c [] e = refl
trim_end-keep c (d ∷ s) e = elim (Bool-cases (is_space c)) [
  | inl h ↦ rw h (ap (keep c) e)
  | inr h ↦ rw h (ap (◌∷◌ c) e)
]

pub trim_end_idem : (s : Bytes) → trim_end (trim_end s) ≡ trim_end s
unfolding trim_end
trim_end_idem [] = refl
trim_end_idem (c ∷ s) = elim (Bool-cases (is_space c)) [
  | inl h ↦ rw h (trim_end-keep c (trim_end s) (trim_end_idem s))
  | inr h ↦ rw (h, trim_end) (rw h (ap (◌∷◌ c) (trim_end_idem s)))
]

skip_spaces-keep : (c : ℕ) (s : Bytes) → is_space c ≡ true → skip_spaces (keep c s) ≡ skip_spaces s
unfolding skip_spaces keep
skip_spaces-keep c [] e = refl
skip_spaces-keep c (d ∷ s) e = rw e refl

-- The two ends are trimmed independently of each other.
pub skip_spaces-trim_end : (s : Bytes) → skip_spaces (trim_end s) ≡ trim_end (skip_spaces s)
unfolding skip_spaces trim_end
skip_spaces-trim_end [] = refl
skip_spaces-trim_end (c ∷ s) = elim (Bool-cases (is_space c)) [
  | inl h ↦ rw h (skip_spaces-keep c (trim_end s) h ∙ skip_spaces-trim_end s)
  | inr h ↦ rw h (rw h refl)
]

pub trim-skip_spaces : (s : Bytes) → trim (skip_spaces s) ≡ trim s
unfolding trim
trim-skip_spaces s = ap trim_end (skip_spaces_idem s)

pub trim-trim_end : (s : Bytes) → trim (trim_end s) ≡ trim s
unfolding trim
trim-trim_end s = ap trim_end (skip_spaces-trim_end s) ∙ trim_end_idem (skip_spaces s)

pub trim_idem : (s : Bytes) → trim (trim s) ≡ trim s
unfolding trim
trim_idem s = trim-trim_end (skip_spaces s) ∙ trim-skip_spaces s

pub skip_spaces-Lacks : (c : ℕ) (s : Bytes) → Lacks c s → Lacks c (skip_spaces s)
unfolding skip_spaces
skip_spaces-Lacks c [] l = tt
skip_spaces-Lacks c (d ∷ s) l = elim (Bool-cases (is_space d)) [
  | inl h ↦ rw h (skip_spaces-Lacks c s l.1)
  | inr h ↦ rw h l
]

keep-Lacks : (c d : ℕ) (s : Bytes) → Lacks c (d ∷ s) → Lacks c (keep d s)
unfolding keep
keep-Lacks c d [] l = tt
keep-Lacks c d (e ∷ s) l = l

trim_end-Lacks : (c : ℕ) (s : Bytes) → Lacks c s → Lacks c (trim_end s)
unfolding trim_end
trim_end-Lacks c [] l = tt
trim_end-Lacks c (d ∷ s) l = elim (Bool-cases (is_space d)) [
  | inl h ↦ rw h (keep-Lacks c d (trim_end s) (l.0, trim_end-Lacks c s l.1))
  | inr h ↦ rw h (l.0, trim_end-Lacks c s l.1)
]

pub trim-Lacks : (c : ℕ) (s : Bytes) → Lacks c s → Lacks c (trim s)
unfolding trim
trim-Lacks c s l = trim_end-Lacks c (skip_spaces s) (skip_spaces-Lacks c s l)
