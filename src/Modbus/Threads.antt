-- ===== src/Modbus/Threads.antt =====
-- The two threads of `hpModbuss` (src/hpModbuss.cpp) in small steps: the server's thread, a descriptor
-- at a time, and the program, which writes a register at a time (`set_holding_registers`) or goes
-- through `stop`. The server's thread takes no mutex, so that a step of it may come between any two
-- steps of the program. The call of a method takes the mutex, and is a step of its own.
pub mod Alone
pub mod Hangup
pub mod Phases
pub mod Progress
pub mod Returns
pub mod Safety
pub mod Stopping
pub mod Writing
use hanport_data_parser.Base.{
  ℕ, ◌+◌, ◌%◌, ◌^◌, Bool, true, false, not, List, [], ◌∷◌, Option, none, some, leb, if◌then◌else◌,
}
use hanport_data_parser.Modbus.{Impl, insert, write_mapping}
use hanport_data_parser.Modbus.Server.{
  FdSet, Selected, failed, timed_out, ready, System, Server, serve,
}

-- Where the server's thread stands: at the test of its `while` loop, at `select`, in the `for` loop
-- at a descriptor, or behind the loops.
pub data Worker : Type 0 where
  at_test at_select : Worker
  at_descriptor : FdSet → ℕ → Worker
  finished : Worker

-- Where the program stands: in no method; in the loop of `set_holding_registers`, with its
-- `address`, its `i` and the values from there on; or in `stop`: with `running` set to false, with
-- the listening socket closed, at the join, behind it, with the mapping freed, and at its end.
pub data Caller : Type 0 where
  idle : Caller
  writing : ℕ → ℕ → List ℕ → Caller
  told hung_up joining joined unmapped stopped : Caller

pub record Threads (S : Type 0) : Type 0 where
  pub server : Server S
  pub worker : Worker
  pub caller : Caller

-- A step of a thread, or a call by a program that is in no method.
pub data Step : Type 0 where
  work go_on call_stop : Step
  call_write : ℕ → List ℕ → Step

-- The body of the loop of `set_holding_registers`.
abbrev pub write_one : ℕ → ℕ → ℕ → Impl → Impl
write_one address i v m = record m {
  registers = insert ((address + i) % 2 ^ 16) v m.registers;
  mb_mapping = write_mapping (address + i) v m.mb_mapping;
}

-- `join` waits for the end of the thread, if there is one to wait for.
unfoldable pub may_go : Caller → Worker → Impl → Bool
may_go joining finished m = true
may_go joining w m = not m.joinable
may_go c w m = true

module _ (Y : System) where
  open Y use {State}

  abbrev pub on_impl : (Impl → Impl) → Server State → Server State
  on_impl f s = record s { impl = f s.impl }

  -- What follows the return of `select`. Both of its `break`s end the thread.
  abbrev pub after_select : Server State → State × Selected → Worker × Server State
  after_select s (y, failed) = (finished, record s { system = y })
  after_select s (y, timed_out) = (at_test, record s { system = y })
  after_select s (y, ready rdset) = (at_descriptor rdset 0, record s { system = y })

  -- A step of the server's thread.
  unfoldable pub advance : Worker → Server State → Worker × Server State
  advance at_test s = if s.impl.running then (at_select, s) else (finished, s)
  advance at_select s = after_select s (Y.select (s.fdmax + 1) s.refset s.system)
  advance (at_descriptor rdset fd) s =
      if leb fd s.fdmax
      then (at_descriptor rdset (fd + 1), if rdset fd then serve Y fd s else s)
      else (at_test, s)
  advance finished s = (finished, s)

  -- The listening socket, if there is one, is shut down, closed and forgotten.
  abbrev pub close_socket : Server State → Option ℕ → Server State
  close_socket s none = s
  close_socket s (some socket) = record s {
    impl = record s.impl { server_socket = none };
    system = Y.close socket (Y.shutdown socket s.system);
  }

  abbrev pub hang_up : Server State → Server State
  hang_up s = if s.impl.ctx then close_socket s s.impl.server_socket else s

  abbrev pub close_clients : Server State → Server State
  close_clients s = if s.impl.ctx then record s { system = Y.modbus_close s.system } else s

  -- A step of the program inside a method.
  unfoldable pub proceed : Caller → Server State → Caller × Server State
  proceed idle s = (idle, s)
  proceed (writing address i []) s = (idle, s)
  proceed (writing address i (v ∷ values)) s =
      (writing address (i + 1) values, on_impl (write_one address i v) s)
  proceed told s = (hung_up, hang_up s)
  proceed hung_up s = (joining, close_clients s)
  proceed joining s = (joined, on_impl (λ m. record m { joinable = false }) s)
  proceed joined s = (unmapped, on_impl (λ m. record m { mb_mapping = none }) s)
  proceed unmapped s = (stopped, on_impl (λ m. record m { ctx = false }) s)
  proceed stopped s = (stopped, s)

  abbrev pub worked : Threads State → Worker × Server State → Threads State
  worked t (w, s) = record t { worker = w; server = s }

  abbrev pub proceeded : Threads State → Caller × Server State → Threads State
  proceeded t (c, s) = record t { caller = c; server = s }

  -- The call of `stop` by a program in no method: it returns at once if the server does not run.
  abbrev pub begin_stop : Threads State → Threads State
  begin_stop t =
      if t.server.impl.running
      then record t { caller = told; server = on_impl (λ m. record m { running = false }) t.server }
      else t

  abbrev pub call : Step → Threads State → Threads State
  call call_stop t = begin_stop t
  call (call_write address values) t = record t { caller = writing address 0 values }
  call e t = t

  -- The program calls a method only if it is in none.
  abbrev pub begin_call : Step → Caller → Threads State → Threads State
  begin_call e idle t = call e t
  begin_call e c t = t

  unfoldable pub act : Step → Threads State → Threads State
  unfolding advance proceed may_go
  act work t = worked t (advance t.worker t.server)
  act go_on t =
      if may_go t.caller t.worker t.server.impl then proceeded t (proceed t.caller t.server) else t
  act e t = begin_call e t.caller t

  -- An interleaving.
  abbrev pub play : List Step → Threads State → Threads State
  play [] t = t
  play (e ∷ es) t = play es (act e t)
