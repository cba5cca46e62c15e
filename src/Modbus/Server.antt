-- ===== src/Modbus/Server.antt =====
-- The thread that `hpModbuss::start` creates (src/hpModbuss.cpp): it waits for its sockets, accepts
-- clients and answers them. A turn is one round of its `while` loop and runs as one step; calls of the
-- other thread come between turns. The calls of the operating system and of libmodbus are
-- the parameter `System`.
pub mod Laws
pub mod Pass
pub mod Same
pub mod Turns
use hanport_data_parser.Base.{
  ℕ, zero, suc, ◌+◌, ◌-◌, Bool, true, false, List, [], ◌∷◌, Option, none, some, ◌==◌, ltb, leb,
  if◌then◌else◌,
}
use hanport_data_parser.Base.Bytes.{Bytes}
use hanport_data_parser.Modbus.{Impl, set_holding_registers}

-- `fd_set`, with `FD_ISSET` as its application.
abbrev pub FdSet : Type 0
FdSet = ℕ → Bool

abbrev pub fd_zero : FdSet
fd_zero fd = false

abbrev pub fd_add : ℕ → FdSet → FdSet
fd_add n refset fd = if fd == n then true else refset fd

abbrev pub fd_clr : ℕ → FdSet → FdSet
fd_clr n refset fd = if fd == n then false else refset fd

-- What `select` returns: -1, 0, or the descriptors that are ready.
pub data Selected : Type 0 where
  failed timed_out : Selected
  ready : FdSet → Selected

-- What `modbus_receive` returns: a query, 0 for one to be ignored, or -1.
pub data Received : Type 0 where
  query : Bytes → Received
  ignored broken : Received

-- `receive` is `modbus_set_socket` and `modbus_receive`; `reply` is `modbus_reply`, which may
-- change the registers of the mapping. `is_open` says which descriptors are open.
pub record System : Type 1 where
  pub State : Type 0
  pub is_open : State → ℕ → Bool
  pub select : ℕ → FdSet → State → State × Selected
  pub accept : ℕ → State → State × Option ℕ
  pub receive : ℕ → State → State × Received
  pub reply : Bytes → List ℕ → State → State × List ℕ
  pub close : ℕ → State → State
  pub shutdown : ℕ → State → State
  -- closes the descriptor that `modbus_set_socket` has set last
  pub modbus_close : State → State

-- The object, the thread's variables, and the state of the system.
pub record Server (S : Type 0) : Type 0 where
  pub impl : Impl
  pub refset : FdSet
  pub fdmax : ℕ
  pub system : S

-- A turn goes on, ends the thread, or has run out of fuel.
pub data Turn (S : Type 0) : Type 0 where
  again : Server S → Turn S
  ended : Server S → Turn S
  no_fuel : Turn S

-- `FD_SETSIZE`, and with it the fuel of the loop over an `fd_set`.
abbrev pub fd_setsize : ℕ
fd_setsize = 1024

module _ (Y : System) where
  open Y use {State}

  -- The thread's variables at its start, with the listening socket.
  unfoldable pub start_thread : ℕ → Impl → State → Server State
  start_thread socket impl system = record {
    impl = impl;
    refset = fd_add socket fd_zero;
    fdmax = socket;
    system = system;
  }

  abbrev pub watch : Server State → State × Option ℕ → Server State
  watch s (system, none) = record s { system = system }
  watch s (system, some newfd) = record s {
    system = system;
    refset = fd_add newfd s.refset;
    fdmax = if ltb s.fdmax newfd then newfd else s.fdmax;
  }

  -- `modbus_reply` on the mapping of the object, which a running server has.
  abbrev pub answer : Bytes → Option (List ℕ) → State → State × Option (List ℕ)
  answer q none system = (system, none)
  answer q (some tab) system = let (system', tab') = Y.reply q tab system in (system', some tab')

  abbrev pub drop_client : ℕ → State → Server State → Server State
  drop_client fd system s = record s {
    system = Y.close fd system;
    refset = fd_clr fd s.refset;
    fdmax = if fd == s.fdmax then s.fdmax - 1 else s.fdmax;
  }

  abbrev pub respond : ℕ → Server State → State × Received → Server State
  respond fd s (system, query q) =
      let (system', tab) = answer q s.impl.mb_mapping system in
      record s { system = system'; impl = record s.impl { mb_mapping = tab } }
  respond fd s (system, ignored) = record s { system = system }
  respond fd s (system, broken) = drop_client fd system s

  abbrev pub is_server : ℕ → Impl → Bool
  is_server fd impl = elim impl.server_socket [ none ↦ false | some socket ↦ fd == socket ]

  -- What the body of the `for` loop does with a descriptor that is ready.
  unfoldable pub serve : ℕ → Server State → Server State
  serve fd s =
      if is_server fd s.impl
      then watch s (Y.accept fd s.system)
      else respond fd s (Y.receive fd s.system)

  -- The `for` loop from `fd` on; its end is read again in each round. `none`: no fuel.
  unfoldable pub scan_ready : ℕ → FdSet → ℕ → Server State → Option (Server State)
  unfolding serve
  scan_ready zero rdset fd s = none
  scan_ready (suc fuel) rdset fd s = elim (leb fd s.fdmax) [
    | true ↦ scan_ready fuel rdset (fd + 1) (if rdset fd then serve fd s else s)
    | false ↦ some s
  ]

  abbrev pub go_on : Option (Server State) → Turn State
  go_on none = no_fuel
  go_on (some s) = again s

  abbrev pub dispatch : Server State → State × Selected → Turn State
  dispatch s (system, failed) = ended (record s { system = system })
  dispatch s (system, timed_out) = again (record s { system = system })
  dispatch s (system, ready rdset) =
      go_on (scan_ready (fd_setsize + 1) rdset 0 (record s { system = system }))

  -- One round of the `while` loop, its test included.
  unfoldable pub turn : Server State → Turn State
  turn s = if s.impl.running then dispatch s (Y.select (s.fdmax + 1) s.refset s.system) else ended s
