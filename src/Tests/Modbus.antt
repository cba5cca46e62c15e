-- ===== src/Tests/Modbus.antt =====
-- The registers of the Modbus server.
use hanport_data_parser.Base.{ℕ, true, List, none, [], ◌∷◌, some, ◌≡◌, refl, arith}
use hanport_data_parser.Base.Int.{pos, negsuc, to_u16, shift_right}
use hanport_data_parser.Data.{HpData, initial}
use hanport_data_parser.Base.Lists.{replicate}
use hanport_data_parser.Modbus.{
  get_holding_register, snapshot_holding_registers, status, lookup, insert, Impl, fresh, Library,
  set_from, set_holding_registers, int_to_regs,
}
use hanport_data_parser.Modbus.Lifecycle.{
  IsConsistent, Call, set_one, set_many, replied, start_call, stop_call, perform, created, called,
  Reachable-IsConsistent,
}
use hanport_data_parser.Base.Result.{ok}
use hanport_data_parser.Modbus.Spec.{read, status_of, online_of, blank}
use hanport_data_parser.Modbus.Spec.Refined.{
  perform_all, promise_all, unserved, perform_all-promise,
}
use hanport_data_parser.Modbus.Store.{IsWritten, set_holding_registers-IsWritten}

abbrev new_server : Impl
new_server = fresh 502

abbrev busy_port : Library
busy_port = record { modbus_new_tcp = true; modbus_mapping_new = true; modbus_tcp_listen = none }

abbrev working : Library
working = record { modbus_new_tcp = true; modbus_mapping_new = true; modbus_tcp_listen = some 3 }

minus_two : int_to_regs (negsuc 1) ≡ 0xFFFE ∷ 0xFFFF ∷ []
unfolding int_to_regs to_u16 shift_right
minus_two = refl

abbrev sample : HpData ℕ
sample = record (initial 0) { heartbeat = pos 5; active_power_import = 3; l1_voltage_rms = 230 }

set_holding_registers-IsWritten_example :
    IsWritten 10 (7 ∷ 8 ∷ []) new_server (set_holding_registers 10 (7 ∷ 8 ∷ []) new_server)
set_holding_registers-IsWritten_example =
    set_holding_registers-IsWritten 10 (7 ∷ 8 ∷ []) new_server (omega arith)

-- Beyond address 2 ^ 16 the map wraps around.
wraps : lookup 0 (set_holding_registers 65535 (7 ∷ 8 ∷ []) new_server).registers ≡ some 8
unfolding lookup insert set_holding_registers set_from fresh
wraps = refl

restarted : Impl
restarted = perform stop_call (perform (start_call working) new_server)

Reachable-IsConsistent_example :
    IsConsistent (perform stop_call (perform (start_call working) new_server))
Reachable-IsConsistent_example =
    Reachable-IsConsistent {port = 502} (called (called created (start_call working)) stop_call)

new-IsConsistent : IsConsistent new_server
new-IsConsistent = Reachable-IsConsistent {port = 502} created

-- A start that fails, one that has success, writes and a stop between them.
abbrev history : List Call
history =
    set_one 3 7
    ∷ start_call busy_port
    ∷ start_call working
    ∷ set_many 2 (5 ∷ 6 ∷ [])
    ∷ replied (replicate 1000 4)
    ∷ stop_call
    ∷ start_call working
    ∷ []

perform_all-promise_example :
    let s = perform_all history (fresh 502) in
    let x = promise_all history unserved in
    (get_holding_register 3 s ≡ read 3 x)
    × (lookup 3 (snapshot_holding_registers s) ≡ x.file 3)
    × (online_of s.mb_mapping ≡ x.online)
    × (status s ≡ status_of x.online)
perform_all-promise_example =
    perform_all-promise 502 history 3 (tt, (tt, (tt, (omega arith, (refl, (tt, (tt, tt)))))))

-- A register that was set before the last start is there for the program, and 0 for clients.
after_restart : let x = promise_all history unserved in (read 3 x ≡ ok 6) × (x.online ≡ some blank)
after_restart = (refl, refl)
