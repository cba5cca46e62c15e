-- ===== src/Modbus/Spec.antt =====
-- What the Modbus object promises, apart from how it keeps its registers: a file of registers that
-- the program reads, and one that clients read while the server runs.
pub mod Calls
pub mod Refined
use hanport_data_parser.Base.{
  ℕ, zero, suc, ◌+◌, ◌%◌, ◌^◌, ◌≤◌, ◌<◌, Bool, true, false, ◌&&◌, List, [], ◌∷◌, Option, none, some,
  ◌≡◌, refl, sym, ap, ◌∙◌, inl, inr, Bool-cases, Option-cases, All, length, get_elem?, arith, ◌==◌,
  ltb, if◌then◌else◌,
}
use hanport_data_parser.Base.Lists.{set, replicate}
use hanport_data_parser.Base.Result.{Result, ok, err, register_not_set}
use hanport_data_parser.Modbus.{
  Registers, lookup, insert, Impl, fresh, nb_reg, Library, listen, zeros, start, stop,
  write_mapping, set_holding_register, set_from, set_holding_registers, get_holding_register,
  snapshot_holding_registers, Status, running, stopped, status,
}
use hanport_data_parser.Modbus.Lifecycle.{
  IsConsistent, Call, start_call, stop_call, set_one, set_many, replied, perform, Reachable,
  created, called, Reachable-IsConsistent,
}
use hanport_data_parser.Modbus.Store.{lookup-insert, length-set}

-- The value at an address, if there is one.
abbrev pub File : Type 0
File = ℕ → Option ℕ

-- `online` is what clients read, if the server runs.
pub record Served : Type 0 where
  pub file : File
  pub online : Option File

abbrev pub put : ℕ → ℕ → File → File
put k v f a = if k == a then some v else f a

-- Clients have the addresses below 1000.
abbrev pub put_online : ℕ → ℕ → Option File → Option File
put_online k v none = none
put_online k v (some f) = some (if ltb k nb_reg then put k v f else f)

abbrev pub write : ℕ → ℕ → Served → Served
write k v x = record { file = put k v x.file; online = put_online k v x.online }

abbrev pub write_all : ℕ → List ℕ → Served → Served
write_all k [] x = x
write_all k (v ∷ values) x = write_all (k + 1) values (write k v x)

abbrev pub blank : File
blank a = if ltb a nb_reg then some 0 else none

abbrev pub starts : Library → Bool
starts l =
    l.modbus_new_tcp
    && l.modbus_mapping_new
    && (elim l.modbus_tcp_listen [ none ↦ false | some fd ↦ true ])

abbrev pub go_online : Bool → Option File → Option File
go_online b (some f) = some f
go_online true none = some blank
go_online false none = none

-- A client that writes has no effect on the file, and none at all if the server does not run.
abbrev pub replace_online : List ℕ → Option File → Option File
replace_online tab none = none
replace_online tab (some f) = some (get_elem? tab)

-- What a call does.
abbrev pub promise : Call → Served → Served
promise (start_call l) x = record { file = x.file; online = go_online (starts l) x.online }
promise stop_call x = record { file = x.file; online = none }
promise (set_one address value) x = write address value x
promise (replied tab) x = record { file = x.file; online = replace_online tab x.online }
promise (set_many address values) x = write_all address values x

-- The object as the promise sees it.
abbrev pub online_of : Option (List ℕ) → Option File
online_of none = none
online_of (some tab) = some (get_elem? tab)

abbrev pub served : Impl → Served
served s = record { file = λ a. lookup a s.registers; online = online_of s.mb_mapping }

-- A program reads a register of the file, the whole file, and whether clients are served.
abbrev pub read : ℕ → Served → Result ℕ
read a x = elim (x.file a) [ none ↦ err register_not_set | some v ↦ ok v ]

abbrev pub status_of : Option File → Status
status_of none = stopped
status_of (some f) = running
