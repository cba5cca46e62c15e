-- ===== src/Config/Clean.antt =====
-- What any configuration file leaves in the object, well-formed or not.
use hanport_data_parser.Base.{
  ℕ, zero, suc, ◌+◌, List, [], ◌∷◌, Option, none, some, ◌≡◌, inl, inr, arith, Bool-cases,
  Option-cases, All, ◌==◌, ◌&&◌, ◌||◌, take, drop,
}
use hanport_data_parser.Base.Bytes.{Bytes, Lacks, equal, equal_iff, find}
use hanport_data_parser.Config.{
  Table, Section, find_key, assign_key, or_empty, trim, LoadState, earlier, strip_comment, back,
  store, read_entry, read_trimmed, read_lines, cleared, load_from_file,
}
use hanport_data_parser.Config.Entry.{IsValue}
use hanport_data_parser.Config.Trim.{trim_idem, trim-Lacks}
use hanport_data_parser.Validator.{split_lines}

-- The key is trimmed and has no `=`; the value is trimmed and has no comment mark.
pub record IsClean (key value : Bytes) : Type 0 where
  pub key_trimmed : trim key ≡ key
  pub key-Lacks : Lacks b'=' key
  pub value_trimmed : trim value ≡ value
  pub value-IsValue : IsValue value

abbrev pub AreClean : Section → Type 0
AreClean t = All (λ (kv : Bytes × Bytes). IsClean kv.0 kv.1) t

abbrev pub AllClean : Table Section → Type 0
AllClean m = All (λ (kt : Bytes × Section). AreClean kt.1) m

some_inj {ℓ} : {V : Type ℓ} (w v : V) → some w ≡ some v → w ≡ v
some_inj w v e = cc

module _ {ℓ κ} {V : Type ℓ} (P : Bytes → V → Type κ) where
  All-assign_key :
      (k : Bytes) (v : V) (m : Table V)
      → P k v
      → All (λ (kv : Bytes × V). P kv.0 kv.1) m
      → All (λ (kv : Bytes × V). P kv.0 kv.1) (assign_key k v m)
  unfolding assign_key
  All-assign_key k v [] p h = (p, tt)
  All-assign_key k v ((j, w) ∷ m) p h = elim (Bool-cases (equal j k)) [
    | inl e ↦ let same : j ≡ k = (equal_iff j k).0 e in rw (e, same) (p, h.1)
    | inr e ↦ rw e (h.0, All-assign_key k v m p h.1)
  ]

  All-find_key :
      (k : Bytes) (v : V) (m : Table V)
      → All (λ (kv : Bytes × V). P kv.0 kv.1) m
      → find_key k m ≡ some v
      → P k v
  unfolding find_key
  All-find_key k v [] h e = cc
  All-find_key k v ((j, w) ∷ m) h e = elim (Bool-cases (equal j k)) [
    | inl d ↦
        let same : j ≡ k = (equal_iff j k).0 d in
        let value : w ≡ v = some_inj w v (rw d at e) in rw (← same, ← value) h.0
    | inr d ↦ All-find_key k v m h.1 (rw d at e)
  ]

find-take-Lacks : (c : ℕ) (s : Bytes) (n : ℕ) → find c s ≡ some n → Lacks c (take n s)
unfolding find
find-take-Lacks c [] n e = cc
find-take-Lacks c (x ∷ s) zero e = tt
find-take-Lacks c (x ∷ s) (suc n) e = ground (arith, find-take-Lacks c s n)

take-earlier :
    (s : Bytes) (n : ℕ) → earlier (find b';' s) (find b'#' s) ≡ some n → IsValue (take n s)
unfolding earlier find
take-earlier [] n e = cc
take-earlier (x ∷ s) zero e = (tt, tt)
take-earlier (x ∷ s) (suc n) e = ground (arith, take-earlier s n)

unmarked : (s : Bytes) → earlier (find b';' s) (find b'#' s) ≡ none → IsValue s
unfolding earlier find
unmarked [] e = (tt, tt)
unmarked (x ∷ s) e = ground (arith, unmarked s)

strip_comment-IsValue :
    (s : Bytes)
    → trim s ≡ s
    → (trim (strip_comment s) ≡ strip_comment s) × IsValue (strip_comment s)
unfolding strip_comment
strip_comment-IsValue s e = elim (Option-cases (earlier (find b';' s) (find b'#' s))) [
  | inl o ↦ rw (o, strip_comment) (e, unmarked s o)
  | inr (n, o) ↦
      let v = take-earlier s n o in
      rw (o, strip_comment)
        (trim_idem (take n s), (trim-Lacks b';' (take n s) v.0, trim-Lacks b'#' (take n s) v.1))
]

old-AreClean : (k : Bytes) (m : Table Section) → AllClean m → AreClean (or_empty (find_key k m))
old-AreClean k m h = elim (Option-cases (find_key k m)) [
  | inl e ↦ rw e tt
  | inr (t, e) ↦ rw e (All-find_key (λ s t'. AreClean t') k t m h e)
]

store-AllClean :
    (key value : Bytes) (r : LoadState)
    → IsClean key value
    → AllClean r.data_
    → AllClean (store key value r).data_
unfolding store
store-AllClean key value r c h =
    All-assign_key (λ s t. AreClean t) r.current_section _ r.data_
      (All-assign_key IsClean key value (or_empty (find_key r.current_section r.data_)) c
        (old-AreClean r.current_section r.data_ h))
      h

read_entry-AllClean :
    (s : Bytes) (r : LoadState) → AllClean r.data_ → AllClean (read_entry s r).data_
unfolding read_entry
read_entry-AllClean s r h = elim (Option-cases (find b'=' s)) [
  | inl e ↦ rw (e, read_entry) h
  | inr (n, e) ↦
      let v = strip_comment-IsValue (trim (drop (n + 1) s)) (trim_idem (drop (n + 1) s)) in
      rw (e, read_entry)
        (store-AllClean (trim (take n s)) (strip_comment (trim (drop (n + 1) s))) r
          (record {
            key_trimmed = trim_idem (take n s);
            key-Lacks = trim-Lacks b'=' (take n s) (find-take-Lacks b'=' s n e);
            value_trimmed = v.0;
            value-IsValue = v.1;
          })
          h)
]

read_trimmed-AllClean :
    (s : Bytes) (r : LoadState) → AllClean r.data_ → AllClean (read_trimmed s r).data_
unfolding read_trimmed
read_trimmed-AllClean [] r h = h
read_trimmed-AllClean (c ∷ s) r h = elim (Bool-cases (c == b';' || c == b'#')) [
  | inl e ↦ rw e h
  | inr e ↦ rw e (elim (Bool-cases (c == b'[' && back c s == b']')) [
    | inl f ↦ rw f h
    | inr f ↦ rw f (read_entry-AllClean (c ∷ s) r h)
  ])
]

read_lines-AllClean :
    (ls : List Bytes) (r : LoadState) → AllClean r.data_ → AllClean (read_lines ls r).data_
unfolding read_lines
read_lines-AllClean [] r h = h
read_lines-AllClean (l ∷ ls) r h =
    read_lines-AllClean ls (read_trimmed (trim l) r) (read_trimmed-AllClean (trim l) r h)

-- Whatever the file holds, and also when it cannot be opened, every key that `loadFromFile` stores
-- is trimmed and has no `=`, and every value is trimmed and has no comment mark.
pub load_from_file-AllClean :
    (path : Bytes) (file : Option Bytes) (before : Table Section)
    → AllClean (load_from_file path file before).0
unfolding load_from_file
load_from_file-AllClean path none before = tt
load_from_file-AllClean path (some content) before =
    read_lines-AllClean (split_lines [] content) cleared tt
