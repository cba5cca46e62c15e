-- ===== src/Modbus.antt =====
-- `hpModbuss` (src/hpModbuss.cpp, include/hpModbuss.hpp): the holding registers of the Modbus server.
-- The object is the record `Impl`; each method runs under its mutex, so it is one step on that
-- record. libmodbus is not part of the program: `Library` says what its calls return in `start`.
pub mod Bounds
pub mod Layout
pub mod Lifecycle
pub mod Server
pub mod Spec
pub mod Store
pub mod Threads
pub mod Words
use hanport_data_parser.Base.{
  ℕ, zero, suc, ◌+◌, ◌/◌, ◌%◌, ◌^◌, Bool, true, false, ◌&&◌, List, [], ◌∷◌, ◌++◌, Option, none,
  some, bit_and, ◌==◌, ltb, if◌then◌else◌,
}
use hanport_data_parser.Base.Int.{ℤ, pos, to_u16, shift_right}
use hanport_data_parser.Base.Lists.{set, replicate}
use hanport_data_parser.Base.Result.{Result, ok, err, register_not_set}
use hanport_data_parser.Data.{HpData}
use hanport_data_parser.Floats.{Floats}

-- `std::map<uint16_t, uint16_t>`, as an association list.
abbrev pub Registers : Type 0
Registers = List (ℕ × ℕ)

unfoldable pub lookup : ℕ → Registers → Option ℕ
lookup k [] = none
lookup k ((j, v) ∷ m) = if j == k then some v else lookup k m

-- `registers[k] = v`
unfoldable pub insert : ℕ → ℕ → Registers → Registers
insert k v [] = (k, v) ∷ []
insert k v ((j, w) ∷ m) = if j == k then (k, v) ∷ m else (j, w) ∷ insert k v m

-- A pointer is its target, if it is not null; the socket is `none` for -1. `ctx` has no content
-- that the program reads, and `mb_mapping` has its `tab_registers`.
pub record Impl : Type 0 where
  pub port : ℕ
  pub running : Bool
  pub joinable : Bool
  pub ctx : Bool
  pub mb_mapping : Option (List ℕ)
  pub server_socket : Option ℕ
  pub registers : Registers

-- The constructor.
unfoldable pub fresh : ℕ → Impl
fresh port = record {
  port = port;
  running = false;
  joinable = false;
  ctx = false;
  mb_mapping = none;
  server_socket = none;
  registers = [];
}

abbrev pub nb_reg : ℕ
nb_reg = 1000

-- What the calls of libmodbus return: a context or null, a mapping or null, a socket or -1.
pub record Library : Type 0 where
  pub modbus_new_tcp : Bool
  pub modbus_mapping_new : Bool
  pub modbus_tcp_listen : Option ℕ

-- The exceptions of `start`.
pub data StartError : Type 0 where
  no_context no_mapping no_socket : StartError

pub listen : Option ℕ → Impl → Impl × Option StartError
listen none s = (
  record s { server_socket = none; mb_mapping = none; ctx = false; running = false },
  some no_socket,
)
listen (some fd) s = (record s { server_socket = some fd; joinable = true }, none)

-- The registers of a new mapping.
pub zeros : List ℕ
zeros = replicate nb_reg 0

pub start : Library → Impl → Impl × Option StartError
start l s =
    let up = record s { running = true; ctx = l.modbus_new_tcp } in
    if s.running
    then (s, none)
    else if l.modbus_new_tcp
    then (if l.modbus_mapping_new
        then listen l.modbus_tcp_listen (record up { mb_mapping = some zeros })
        else (record up { mb_mapping = none; ctx = false; running = false }, some no_mapping))
    else (record up { running = false }, some no_context)

-- The listening socket is closed if there is a context, the thread joined if it can be, and the
-- mapping and the context freed. The source holds the mutex for the reset of `running` only; here
-- `stop` is one step, as it is where no other call comes between. Modbus.Threads splits it.
pub stop : Impl → Impl
stop s =
    if s.running
    then record s {
      running = false;
      server_socket = if s.ctx then none else s.server_socket;
      joinable = false;
      mb_mapping = none;
      ctx = false;
    }
    else s

-- The destructor; the object is not read again.
abbrev pub destroy : Impl → Impl
destroy s = stop s

-- The write into the mapping, under its guard.
unfoldable pub write_mapping : ℕ → ℕ → Option (List ℕ) → Option (List ℕ)
write_mapping index value none = none
write_mapping index value (some tab) = some (if ltb index nb_reg then set tab index value else tab)

-- `address` and `value` are `uint16_t`.
pub set_holding_register : ℕ → ℕ → Impl → Impl
set_holding_register address value s = record s {
  registers = insert address value s.registers;
  mb_mapping = write_mapping address value s.mb_mapping;
}

-- The loop of `set_holding_registers` from index `i`. The sum is a `size_t`; as a key of the map it
-- is cut to 16 bits.
unfoldable pub set_from : ℕ → ℕ → List ℕ → Impl → Impl
set_from address i [] s = s
set_from address i (v ∷ values) s = set_from address (i + 1) values (record s {
  registers = insert ((address + i) % 2 ^ 16) v s.registers;
  mb_mapping = write_mapping (address + i) v s.mb_mapping;
})

unfoldable pub set_holding_registers : ℕ → List ℕ → Impl → Impl
set_holding_registers address values s = set_from address 0 values s

pub get_holding_register : ℕ → Impl → Result ℕ
get_holding_register address s = elim (lookup address s.registers) [
  | none ↦ err register_not_set
  | some v ↦ ok v
]

pub snapshot_holding_registers : Impl → Registers
snapshot_holding_registers s = s.registers

pub data Status : Type 0 where
  running stopped : Status

pub status : Impl → Status
status s = if s.running then running else stopped

abbrev pub append_all : List (List ℕ) → List ℕ
append_all [] = []
append_all (p ∷ ps) = p ++ append_all ps

-- `i >> 16` and `i & 0xFFFF`, low word first.
unfoldable pub int_to_regs : ℤ → List ℕ
int_to_regs i = let high = to_u16 (shift_right i 16) in let low = to_u16 i in low ∷ high ∷ []

module _ (F : Floats) where
  open F use {Float, of_int, mul, to_int, bits}

  pub float_to_regs : Float → List ℕ
  float_to_regs f =
      let u = bits f in
      let high = bit_and (u / 2 ^ 16) 0xFFFF % 2 ^ 16 in
      let low = bit_and u 0xFFFF % 2 ^ 16 in low ∷ high ∷ []

  -- `static_cast<int>(v * 1000)`. C++ leaves the result undefined where the product is out of the
  -- range of `int`; here it is then whatever `to_int` gives.
  unfoldable pub milli : Float → ℤ
  milli v = to_int (mul v (of_int (pos 1000)))

  -- Each part is appended behind those before it.
  pub make_regs : HpData Float → List ℕ
  make_regs d = append_all (
      int_to_regs d.heartbeat
      ∷ (float_to_regs d.active_energy_import_total)
      ∷ (float_to_regs d.active_energy_export_total)
      ∷ (float_to_regs d.reactive_energy_import_total)
      ∷ (float_to_regs d.reactive_energy_export_total)
      ∷ (int_to_regs (milli d.active_power_import))
      ∷ (int_to_regs (milli d.active_power_export))
      ∷ (int_to_regs (milli d.reactive_power_import))
      ∷ (int_to_regs (milli d.reactive_power_export))
      ∷ (int_to_regs (milli d.l1_active_power_import))
      ∷ (int_to_regs (milli d.l1_active_power_export))
      ∷ (int_to_regs (milli d.l2_active_power_import))
      ∷ (int_to_regs (milli d.l2_active_power_export))
      ∷ (int_to_regs (milli d.l3_active_power_import))
      ∷ (int_to_regs (milli d.l3_active_power_export))
      ∷ (int_to_regs (milli d.l1_reactive_power_import))
      ∷ (int_to_regs (milli d.l1_reactive_power_export))
      ∷ (int_to_regs (milli d.l2_reactive_power_import))
      ∷ (int_to_regs (milli d.l2_reactive_power_export))
      ∷ (int_to_regs (milli d.l3_reactive_power_import))
      ∷ (int_to_regs (milli d.l3_reactive_power_export))
      ∷ (float_to_regs d.l1_voltage_rms)
      ∷ (float_to_regs d.l2_voltage_rms)
      ∷ (float_to_regs d.l3_voltage_rms)
      ∷ (float_to_regs d.l1_current_rms)
      ∷ (float_to_regs d.l2_current_rms)
      ∷ (float_to_regs d.l3_current_rms)
      ∷ [])

  unfoldable pub set_from_hp_data : HpData Float → ℕ → Impl → Impl
  set_from_hp_data d start_address s = set_holding_registers start_address (make_regs d) s
