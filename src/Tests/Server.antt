-- ===== src/Tests/Server.antt =====
-- A system with one client, which connects, sends a query that writes a register, and goes.
use hanport_data_parser.Base.{
  ℕ, zero, suc, ◌+◌, Bool, true, false, ◌&&◌, List, [], ◌∷◌, Option, none, some, ◌≡◌, refl, ltb,
  arith,
}
use hanport_data_parser.Base.Lists.{set}
use hanport_data_parser.Base.Bytes.{codes}
use hanport_data_parser.Modbus.{
  Impl, Registers, fresh, insert, write_mapping, set_holding_registers, set_from,
}
use hanport_data_parser.Modbus.Server.{
  FdSet, fd_zero, fd_add, fd_clr, ready, Received, query, broken, System, Server, Turn, again,
  ended, no_fuel, start_thread, serve, scan_ready, turn, fd_setsize,
}
use hanport_data_parser.Modbus.Server.Laws.{IsLawful, Accepts}
use hanport_data_parser.Modbus.Server.Pass.{members, serve_each}
use hanport_data_parser.Modbus.Server.Turns.{
  Event, write, pass, writes, play, Runs, start_thread-IsWatched, play-start_thread,
  turn-serve_each,
}

-- The descriptors that are open, and the calls of `receive`.
pub record Host : Type 0 where
  pub opened : FdSet
  pub calls : ℕ

abbrev open_at : Host → ℕ → Bool
open_at y k = ltb k fd_setsize && y.opened k

abbrev answers : ℕ → Received
answers zero = query (codes "write 7")
answers (suc n) = broken

abbrev join : Bool → Host → Host × Option ℕ
join true y = (y, none)
join false y = (record y { opened = fd_add 4 y.opened }, some 4)

abbrev pub one_client : System
one_client = record {
  State = Host;
  is_open = open_at;
  select = λ n refset y. (y, ready (λ k. refset k && ltb k n));
  accept = λ socket y. join (y.opened 4) y;
  receive = λ fd y. (record y { calls = y.calls + 1 }, answers y.calls);
  reply = λ q tab y. (y, set tab 0 7);
  close = λ fd y. record y { opened = fd_clr fd y.opened };
  shutdown = λ fd y. y;
  modbus_close = λ y. y;
}

join-Accepts : (b : Bool) (y : Host) → y.opened 4 ≡ b → Accepts one_client y (join b y)
join-Accepts true y e = λ k. refl
join-Accepts false y e = (ground arith, refl, λ k n. ground arith)

pub one_client-IsLawful : IsLawful one_client
one_client-IsLawful = record {
  open-lt = λ y k h. ground arith;
  select_lem = λ n r y. (λ k. refl, λ k h. ground arith);
  accept_lem = λ socket y. join-Accepts (y.opened 4) y refl;
  receive_lem = λ fd y k. refl;
  reply_lem = λ q tab y k. refl;
  close_lem = λ fd k y n. ground arith;
}

abbrev pub listening : Impl
listening = record (fresh 502) {
  running = true;
  joinable = true;
  ctx = true;
  mb_mapping = some (0 ∷ 0 ∷ []);
  server_socket = some 3;
}

abbrev pub host : Host
host = record { opened = fd_add 3 fd_zero; calls = 0 }

abbrev events : List Event
events = pass ∷ write 1 (9 ∷ []) ∷ pass ∷ []

play-start_thread_example :
    Runs one_client
      (writes events listening)
      (play one_client events (again (start_thread one_client 3 listening host)))
play-start_thread_example =
    play-start_thread one_client one_client-IsLawful events 3 listening host refl refl

abbrev pub first : Server Host
first = start_thread one_client 3 listening host

turn-serve_each_example :
    turn one_client first
    ≡ again (serve_each one_client (members (λ k. first.refset k && ltb k 4) 0 fd_setsize) first)
unfolding start_thread
turn-serve_each_example =
    turn-serve_each one_client one_client-IsLawful first host (λ k. first.refset k && ltb k 4)
      (start_thread-IsWatched one_client one_client-IsLawful 3 listening host refl refl) refl refl

-- The end of the loop, the mapping, and the registers that the program sees.
abbrev visible : Turn Host → Option (ℕ × Option (List ℕ) × Registers)
visible (again s) = some (s.fdmax, s.impl.mb_mapping, s.impl.registers)
visible (ended s) = none
visible no_fuel = none

-- What the client has written stands in the mapping and not among the registers.
client_writes :
    visible (play one_client events (again first)) ≡ some (4, some (7 ∷ 9 ∷ []), (1, 9) ∷ [])
unfolding turn scan_ready serve start_thread set_holding_registers set_from write_mapping insert
    fresh
client_writes = refl

client_goes :
    visible (play one_client (pass ∷ pass ∷ pass ∷ []) (again first))
    ≡ some (3, some (7 ∷ 0 ∷ []), [])
unfolding turn scan_ready serve start_thread fresh
client_goes = refl
