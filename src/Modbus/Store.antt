-- ===== src/Modbus/Store.antt =====
-- The registers that a client sees after a write: the map of the object and the mapping of libmodbus.
use native.Mathlib.Nat.{add-zero}
use hanport_data_parser.Base.{
  ℕ, zero, suc, ◌+◌, ◌%◌, ◌^◌, ◌≤◌, ◌<◌, List, [], ◌∷◌, Option, none, some, ◌≡◌, refl, ap, ◌∙◌, ◌⊎◌,
  inl, inr, ◌==◌, ltb, if◌then◌else◌, Bool-cases, arith, length, get_elem?,
}
use hanport_data_parser.Base.Lists.{set}
use hanport_data_parser.Modbus.{
  Registers, lookup, insert, Impl, nb_reg, write_mapping, set_holding_register, set_from,
  set_holding_registers,
}

pub lookup-insert :
    (j k v : ℕ) (m : Registers) → lookup j (insert k v m) ≡ (if k == j then some v else lookup j m)
unfolding lookup insert
lookup-insert j k v [] = refl
lookup-insert j k v ((i, w) ∷ m) = ground (arith, lookup-insert j k v m)

-- The element at an index of a list, or 0.
abbrev pub nth : List ℕ → ℕ → ℕ
nth [] i = 0
nth (x ∷ xs) zero = x
nth (x ∷ xs) (suc i) = nth xs i

nth-set :
    (xs : List ℕ) (i j v : ℕ)
    → i < length xs
    → nth (set xs i v) j ≡ (if i == j then v else nth xs j)
nth-set [] i j v h = elim h [ ]
nth-set (x ∷ xs) zero zero v h = refl
nth-set (x ∷ xs) zero (suc j) v h = ground arith
nth-set (x ∷ xs) (suc i) zero v h = ground arith
nth-set (x ∷ xs) (suc i) (suc j) v h = nth-set xs i j v (omega arith) ∙ ground arith

pub length-set : (xs : List ℕ) (i v : ℕ) → length (set xs i v) ≡ length xs
length-set [] i v = refl
length-set (x ∷ xs) zero v = refl
length-set (x ∷ xs) (suc i) v = ap suc (length-set xs i v)

-- What a client reads from the mapping agrees with the map: at every address of the mapping, the
-- entry of the map, or 0 where there is none.
abbrev pub or_zero : Option ℕ → ℕ
or_zero none = 0
or_zero (some v) = v

abbrev pub Mirrors : Option (List ℕ) → Registers → Type 0
Mirrors none m = Unit
Mirrors (some tab) m =
    (length tab ≡ nb_reg) × ((a : ℕ) → a < nb_reg → nth tab a ≡ or_zero (lookup a m))

abbrev pub IsSynced : Impl → Type 0
IsSynced s = Mirrors s.mb_mapping s.registers

write_mapping-Mirrors :
    (a v : ℕ) (o : Option (List ℕ)) (m : Registers)
    → Mirrors o m
    → Mirrors (write_mapping a v o) (insert a v m)
unfolding write_mapping
write_mapping-Mirrors a v none m h = tt
write_mapping-Mirrors a v (some tab) m (len, h) = elim (Bool-cases (ltb a nb_reg)) [
  | inl e ↦ rw e (
    length-set tab a v ∙ len,
    λ j lt. nth-set tab a j v (ground arith) ∙ ground (arith, lookup-insert j a v m, h j),
  )
  | inr e ↦ rw e (len, λ j lt. ground (arith, lookup-insert j a v m, h j))
]

-- A single write keeps the mapping a mirror of the map, and changes one register.
pub set_holding_register-IsSynced :
    (address value : ℕ) (s : Impl) → IsSynced s → IsSynced (set_holding_register address value s)
unfolding set_holding_register
set_holding_register-IsSynced address value s h =
    write_mapping-Mirrors address value s.mb_mapping s.registers h

-- The effect of a write of `values` from `address` on.
pub record IsWritten (address : ℕ) (values : List ℕ) (s s' : Impl) : Type 0 where
  pub stored : (i : ℕ) → i < length values → lookup (address + i) s'.registers ≡ get_elem? values i
  pub others :
      (j : ℕ)
      → (j < address) ⊎ (address + length values ≤ j)
      → lookup j s'.registers ≡ lookup j s.registers
  pub synced : IsSynced s → IsSynced s'

-- The object after one round of the loop.
abbrev written_once : ℕ → ℕ → ℕ → Impl → Impl
written_once key index v s = record s {
  registers = insert key v s.registers;
  mb_mapping = write_mapping index v s.mb_mapping;
}

IsWritten-cons :
    (a v : ℕ) (values : List ℕ) (s s' : Impl)
    → IsWritten (a + 1) values (written_once a a v s) s'
    → IsWritten a (v ∷ values) s s'
IsWritten-cons a v values s s' w = record {
  stored = by_index;
  others = λ j h. w.others j (apart j h) ∙ ground (arith, lookup-insert j a v s.registers);
  synced = λ h. w.synced (write_mapping-Mirrors a v s.mb_mapping s.registers h);
}
  where
    apart :
        (j : ℕ)
        → (j < a) ⊎ (a + suc (length values) ≤ j)
        → (j < a + 1) ⊎ (a + 1 + length values ≤ j)
    apart j h = omega arith

    by_index :
        (i : ℕ) → i < suc (length values) → lookup (a + i) s'.registers ≡ get_elem? (v ∷ values) i
    by_index zero h =
        ap (λ (k : ℕ). lookup k s'.registers) (add-zero a)
        ∙ w.others a (inl (omega arith))
        ∙ ground (arith, lookup-insert a a v s.registers)
    by_index (suc i) h =
        ap (λ (k : ℕ). lookup k s'.registers) (omega arith) ∙ w.stored i (omega arith)

set_from-IsWritten :
    (values : List ℕ) (address i a : ℕ) (s : Impl)
    → address + i ≡ a
    → a + length values ≤ 2 ^ 16
    → IsWritten a values s (set_from address i values s)
unfolding set_from
set_from-IsWritten [] address i a s e fits = record {
  stored = λ k h. absurd (omega arith);
  others = λ j h. refl;
  synced = λ h. h;
}
set_from-IsWritten (v ∷ values) address i a s e fits =
    let key : (address + i) % 2 ^ 16 ≡ a = omega arith in
    let rest =
      set_from-IsWritten values address (i + 1) (a + 1) (written_once a a v s) (omega arith)
        (omega arith) in
    IsWritten-cons a v values s (set_from address i (v ∷ values) s) (rw (key, e) rest)

-- A write that ends below address 2 ^ 16 stores its values at the addresses from `address` on,
-- changes no other register, and keeps what a client reads from the mapping equal to the map.
pub set_holding_registers-IsWritten :
    (address : ℕ) (values : List ℕ) (s : Impl)
    → address + length values ≤ 2 ^ 16
    → IsWritten address values s (set_holding_registers address values s)
unfolding set_holding_registers
set_holding_registers-IsWritten address values s fits =
    set_from-IsWritten values address 0 address s (add-zero address) fits
