-- ===== src/Modbus/Server/Turns.antt =====
-- Any sequence of turns of the thread and writes of the program.
use mathlib.Core.Path.{subst}
use hanport_data_parser.Base.{
  ℕ, ◌+◌, ◌≤◌, ◌<◌, Bool, true, false, List, [], ◌∷◌, Option, some, ◌≡◌, refl, sym, ap, ◌∙◌,
  if◌then◌else◌, arith,
}
use hanport_data_parser.Modbus.{Impl, set_holding_registers}
use hanport_data_parser.Modbus.Server.{
  FdSet, Selected, failed, timed_out, ready, System, Server, Turn, again, ended, no_fuel,
  start_thread, scan_ready, fd_setsize, go_on, dispatch, turn,
}
use hanport_data_parser.Modbus.Server.Laws.{Selects, IsLawful, IsWatched, Keeps-IsWatched}
use hanport_data_parser.Modbus.Server.Same.{
  Same, set_holding_registers-Same, set_holding_registers-socket, serve_each-Same,
}
use hanport_data_parser.Modbus.Server.Pass.{
  members, serve_each, serve_each-IsWatched, scan_ready-serve_each,
}

-- The program writes registers, or the thread makes a turn.
pub data Event : Type 0 where
  write : ℕ → List ℕ → Event
  pass : Event

-- The writes alone.
abbrev pub writes : List Event → Impl → Impl
writes [] m = m
writes (write address values ∷ es) m = writes es (set_holding_registers address values m)
writes (pass ∷ es) m = writes es m

module _ (Y : System) where
  open Y use {State}

  abbrev pub write_to : ℕ → List ℕ → Server State → Server State
  write_to address values s = record s { impl = set_holding_registers address values s.impl }

  -- A thread that has ended makes no further turn.
  abbrev pub step : Event → Turn State → Turn State
  step e no_fuel = no_fuel
  step (write address values) (again s) = again (write_to address values s)
  step (write address values) (ended s) = ended (write_to address values s)
  step pass (again s) = turn Y s
  step pass (ended s) = ended s

  abbrev pub play : List Event → Turn State → Turn State
  play [] t = t
  play (e ∷ es) t = play es (step e t)

  -- The fuel was enough; whether the thread goes on or has ended, the object is `m` but for the
  -- mapping, and the thread's variables keep the invariant.
  abbrev pub Runs : Impl → Turn State → Type 0
  Runs m (again s) = Same m s.impl × IsWatched Y s
  Runs m (ended s) = Same m s.impl × IsWatched Y s
  Runs m no_fuel = ⊥

  module _ (L : IsLawful Y) where
    write_to-Runs :
        (address : ℕ) (values : List ℕ) (m : Impl) (s : Server State)
        → Same m s.impl × IsWatched Y s
        → Same (set_holding_registers address values m) (write_to address values s).impl
          × IsWatched Y (write_to address values s)
    write_to-Runs address values m s (e, w) = (
      set_holding_registers-Same address values m s.impl e,
      record {
        socket = w.socket;
        listens = set_holding_registers-socket address values s.impl ∙ w.listens;
        socket_watched = w.socket_watched;
        watched-le = w.watched-le;
        watched_open = w.watched_open;
        fdmax-lt = w.fdmax-lt;
      },
    )

    dispatched :
        (s : Server State) (y : State) (rdset : FdSet)
        → IsWatched Y s
        → Selects Y (s.fdmax + 1) s.refset s.system (y, ready rdset)
        → scan_ready Y (fd_setsize + 1) rdset 0 (record s { system = y })
          ≡ some (serve_each Y (members rdset 0 fd_setsize) (record s { system = y }))
    dispatched s y rdset w k =
        scan_ready-serve_each Y L fd_setsize (fd_setsize + 1) 0 rdset (record s { system = y })
          (omega arith) (omega arith) (λ i l h. below i (k.1 i h).1) (Keeps-IsWatched Y L s y k.0 w)
      where
        below : (i : ℕ) → i < s.fdmax + 1 → i ≤ s.fdmax
        below i h = omega arith

    dispatch-Runs :
        (m : Impl) (s : Server State) (r : State × Selected)
        → Selects Y (s.fdmax + 1) s.refset s.system r
        → Same m s.impl × IsWatched Y s
        → Runs m (dispatch Y s r)
    dispatch-Runs m s (y, failed) k (e, w) = (e, Keeps-IsWatched Y L s y k w)
    dispatch-Runs m s (y, timed_out) k (e, w) = (e, Keeps-IsWatched Y L s y k w)
    dispatch-Runs m s (y, ready rdset) k (e, w) =
        let s' = record s { system = y } in
        let w' = Keeps-IsWatched Y L s y k.0 w in
        let fds = members rdset 0 fd_setsize in
        subst (λ (o : Option (Server State)). Runs m (go_on Y o)) (sym (dispatched s y rdset w k))
          (serve_each-Same Y fds s' m e, serve_each-IsWatched Y L fds s' w')

    either-Runs :
        (m : Impl) (b : Bool) (t u : Turn State) → Runs m t → Runs m u → Runs m (if b then t else u)
    either-Runs m true t u h k = h
    either-Runs m false t u h k = k

    turn-Runs : (m : Impl) (s : Server State) → Same m s.impl × IsWatched Y s → Runs m (turn Y s)
    unfolding turn
    turn-Runs m s h =
        let r = Y.select (s.fdmax + 1) s.refset s.system in
        either-Runs m s.impl.running (dispatch Y s r) (ended s)
          (dispatch-Runs m s r (L.select_lem (s.fdmax + 1) s.refset s.system) h) h

    step-Runs :
        (e : Event) (m : Impl) (t : Turn State) → Runs m t → Runs (writes (e ∷ []) m) (step e t)
    step-Runs e m no_fuel h = elim h [ ]
    step-Runs (write address values) m (again s) h = write_to-Runs address values m s h
    step-Runs (write address values) m (ended s) h = write_to-Runs address values m s h
    step-Runs pass m (again s) h = turn-Runs m s h
    step-Runs pass m (ended s) h = h

    play-Runs :
        (es : List Event) (m : Impl) (t : Turn State) → Runs m t → Runs (writes es m) (play es t)
    play-Runs [] m t h = h
    play-Runs (write a v ∷ es) m t h =
        play-Runs es (set_holding_registers a v m) (step (write a v) t)
          (step-Runs (write a v) m t h)
    play-Runs (pass ∷ es) m t h = play-Runs es m (step pass t) (step-Runs pass m t h)

    start_thread-Same :
        (socket : ℕ) (m : Impl) (y : State) → Same m (start_thread Y socket m y).impl
    unfolding start_thread
    start_thread-Same socket m y = refl

    pub start_thread-IsWatched :
        (socket : ℕ) (m : Impl) (y : State)
        → m.server_socket ≡ some socket
        → Y.is_open y socket ≡ true
        → IsWatched Y (start_thread Y socket m y)
    unfolding start_thread
    start_thread-IsWatched socket m y e o = record {
      socket = socket;
      listens = e;
      socket_watched = ground arith;
      watched-le = λ k h. ground arith;
      watched_open = λ k h. let same : k ≡ socket = ground arith in rw same o;
      fdmax-lt = L.open-lt y socket o;
    }

    -- A thread that starts with an open listening socket never gets stuck in its inner loop, whatever
    -- the system answers, if the descriptors that it gives out are below FD_SETSIZE, and however the
    -- program's writes come between its turns. What it watches
    -- is open and not above `fdmax`, which fits into an `fd_set`, and the listening socket is among
    -- it. The object is the one that the writes alone lead to, but for the mapping: the program
    -- never sees what clients write.
    pub play-start_thread :
        (es : List Event) (socket : ℕ) (m : Impl) (y : State)
        → m.server_socket ≡ some socket
        → Y.is_open y socket ≡ true
        → Runs (writes es m) (play es (again (start_thread Y socket m y)))
    play-start_thread es socket m y e o =
        play-Runs es m (again (start_thread Y socket m y))
          (start_thread-Same socket m y, start_thread-IsWatched socket m y e o)

    -- If `select` reports descriptors, a turn serves each of them exactly once and in ascending order,
    -- also where a client comes or goes during the turn.
    pub turn-serve_each :
        (s : Server State) (y : State) (rdset : FdSet)
        → IsWatched Y s
        → s.impl.running ≡ true
        → Y.select (s.fdmax + 1) s.refset s.system ≡ (y, ready rdset)
        → turn Y s ≡ again (serve_each Y (members rdset 0 fd_setsize) (record s { system = y }))
    unfolding turn
    turn-serve_each s y rdset w e d =
        ap
          (λ (b : Bool).
            if b then dispatch Y s (Y.select (s.fdmax + 1) s.refset s.system) else ended s)
          e
        ∙ ap (dispatch Y s) d
        ∙ ap (go_on Y) (
            dispatched s y rdset w (
              subst (λ (r : State × Selected). Selects Y (s.fdmax + 1) s.refset s.system r) d
                (L.select_lem (s.fdmax + 1) s.refset s.system)))
