-- ===== src/Modbus/Bounds.antt =====
-- The widths of the registers' addresses and values.
use hanport_data_parser.Base.{
  ℕ, zero, suc, ◌+◌, ◌%◌, ◌^◌, ◌≤◌, ◌<◌, Bool, true, false, List, [], ◌∷◌, Option, none, some, inl,
  inr, Bool-cases, All, length, arith, ◌==◌, ltb,
}
use hanport_data_parser.Base.Lists.{set, replicate}
use hanport_data_parser.Data.{HpData}
use hanport_data_parser.Floats.{Floats}
use hanport_data_parser.Modbus.{
  Registers, Impl, Library, nb_reg, insert, write_mapping, set_from, set_holding_registers, fresh,
  zeros, listen, start, make_regs, set_from_hp_data,
}
use hanport_data_parser.Modbus.Layout.{IsRegister, make_regs-IsRegister, make_regs-pair_at}

-- Addresses of the 54 registers, with 16-bit values.
abbrev pub IsCell : ℕ × ℕ → Type 0
IsCell (k, v) = (k < 54) × IsRegister v

abbrev pub AreCells : Registers → Type 0
AreCells = All IsCell

insert-AreCells :
    (k v : ℕ) (m : Registers) → k < 54 → IsRegister v → AreCells m → AreCells (insert k v m)
unfolding insert
insert-AreCells k v [] h l c = ((h, l), tt)
insert-AreCells k v ((j, w) ∷ m) h l c = elim (Bool-cases (j == k)) [
  | inl e ↦ rw e ((h, l), c.1)
  | inr e ↦ rw e (c.0, insert-AreCells k v m h l c.1)
]

set-All : (xs : List ℕ) (i v : ℕ) → IsRegister v → All IsRegister xs → All IsRegister (set xs i v)
set-All [] i v h l = tt
set-All (x ∷ xs) zero v h l = (h, l.1)
set-All (x ∷ xs) (suc i) v h l = (l.0, set-All xs i v h l.1)

-- What clients read is 16 bits wide, too.
abbrev pub AreWords : Option (List ℕ) → Type 0
AreWords none = Unit
AreWords (some tab) = All IsRegister tab

write_mapping-AreWords :
    (i v : ℕ) (o : Option (List ℕ)) → IsRegister v → AreWords o → AreWords (write_mapping i v o)
unfolding write_mapping
write_mapping-AreWords i v none h w = tt
write_mapping-AreWords i v (some tab) h w = elim (Bool-cases (ltb i 1000)) [
  | inl e ↦ rw e (set-All tab i v h w)
  | inr e ↦ rw e w
]

abbrev pub IsBounded : Impl → Type 0
IsBounded m = AreCells m.registers × AreWords m.mb_mapping

set_from-IsBounded :
    (values : List ℕ) (i : ℕ) (m : Impl)
    → i + length values ≤ 54
    → All IsRegister values
    → IsBounded m
    → IsBounded (set_from 0 i values m)
unfolding set_from
set_from-IsBounded [] i m h l b = b
set_from-IsBounded (v ∷ values) i m h l b = set_from-IsBounded values (i + 1) _ (omega arith) l.1 (
  insert-AreCells ((0 + i) % 2 ^ 16) v m.registers (omega arith) l.0 b.0,
  write_mapping-AreWords (0 + i) v m.mb_mapping l.0 b.1,
)

module _ (F : Floats) where
  open F use {Float}

  pub set_from_hp_data-IsBounded :
      (d : HpData Float) (m : Impl) → IsBounded m → IsBounded (set_from_hp_data F d 0 m)
  unfolding set_from_hp_data set_holding_registers
  set_from_hp_data-IsBounded d m b =
      set_from-IsBounded (make_regs F d) 0 m (omega (arith, (make_regs-pair_at F d).0))
        (make_regs-IsRegister F d) b

zeros-All : (n : ℕ) → All IsRegister (replicate n 0)
zeros-All zero = tt
zeros-All (suc n) = (omega arith, zeros-All n)

-- A new server holds zeros or nothing.
pub start-fresh-IsBounded : (l : Library) (port : ℕ) → IsBounded (start l (fresh port)).0
unfolding start listen fresh zeros
start-fresh-IsBounded l port = by_answers l.modbus_new_tcp l.modbus_mapping_new l.modbus_tcp_listen
  where
    by_answers :
        (tcp mapping : Bool) (fd : Option ℕ)
        → IsBounded
            (start
              (record {
                modbus_new_tcp = tcp;
                modbus_mapping_new = mapping;
                modbus_tcp_listen = fd;
              })
              (fresh port)).0
    by_answers false mapping fd = (tt, tt)
    by_answers true false fd = (tt, tt)
    by_answers true true none = (tt, tt)
    by_answers true true (some n) = (tt, zeros-All nb_reg)
