-- ===== src/Modbus/Threads/Progress.antt =====
-- Once the server does not run, each step of its thread brings the thread nearer to its end, and each
-- step of the program brings `stop` nearer to its own.
use hanport_data_parser.Base.{
  ℕ, ◌+◌, ◌-◌, ◌≤◌, ◌<◌, Bool, true, false, List, [], ◌∷◌, Option, none, some, ◌≡◌, inl, inr,
  Bool-cases, leb, if◌then◌else◌, arith,
}
use hanport_data_parser.Modbus.{Impl}
use hanport_data_parser.Modbus.Server.{
  Received, query, ignored, broken, Selected, failed, timed_out, ready, System, Server, fd_setsize,
  watch, respond, is_server, serve,
}
use hanport_data_parser.Modbus.Server.Laws.{IsLawful, Accepts}
use hanport_data_parser.Modbus.Threads.{
  Worker, at_test, at_select, at_descriptor, finished, Caller, idle, writing, told, hung_up,
  joining, joined, unmapped, stopped, Threads, Step, work, go_on, call_stop, call_write,
  after_select, advance, proceed, may_go, begin_stop, begin_call, act, close_socket,
}
use hanport_data_parser.Modbus.Threads.Phases.{Phase}

-- How many steps the server's thread can still make once the server does not run.
abbrev pub work_left : Worker → ℕ
work_left at_test = 1
work_left at_select = fd_setsize + 3
work_left (at_descriptor rdset fd) = fd_setsize - fd + 2
work_left finished = 0

-- How many steps `stop` has still to make.
abbrev pub stop_left : Caller → ℕ
stop_left told = 5
stop_left hung_up = 4
stop_left joining = 3
stop_left joined = 2
stop_left unmapped = 1
stop_left c = 0

abbrev pub IsStop : Caller → Type 0
IsStop idle = ⊥
IsStop (writing address i values) = ⊥
IsStop c = Unit

pub not_running : (c : Caller) (w : Worker) (m : Impl) → IsStop c → Phase c w m → m.running ≡ false
not_running idle w m i h = elim i [ ]
not_running (writing a k vs) w m i h = elim i [ ]
not_running told w m i h = h.0.0
not_running hung_up w m i h = h.0.0
not_running joining w m i h = h.0.0
not_running joined w m i h = h.0.1
not_running unmapped w m i h = h.0.1
not_running stopped w m i h = h.0.1

-- The steps of each kind in an interleaving.
abbrev pub as_work : Step → ℕ
as_work work = 1
as_work e = 0

abbrev pub as_go_on : Step → ℕ
as_go_on go_on = 1
as_go_on e = 0

abbrev pub count : (Step → ℕ) → List Step → ℕ
count weight [] = 0
count weight (e ∷ es) = weight e + count weight es

module _ (Y : System) (L : IsLawful Y) where
  open Y use {State}

  watch-fits :
      (s : Server State) (r : State × Option ℕ)
      → Accepts Y s.system r
      → s.fdmax < fd_setsize
      → (watch Y s r).fdmax < fd_setsize
  watch-fits s (y, none) a h = h
  watch-fits s (y, some n) a h = ground (arith, L.open-lt y n a.1)

  respond-fits :
      (fd : ℕ) (s : Server State) (r : State × Received)
      → s.fdmax < fd_setsize
      → (respond Y fd s r).fdmax < fd_setsize
  respond-fits fd s (y, query q) h = h
  respond-fits fd s (y, ignored) h = h
  respond-fits fd s (y, broken) h = ground arith

  serve-fits :
      (fd : ℕ) (s : Server State) → s.fdmax < fd_setsize → (serve Y fd s).fdmax < fd_setsize
  unfolding serve
  serve-fits fd s h = elim (Bool-cases (is_server Y fd s.impl)) [
    | inl e ↦ rw (e, serve) (watch-fits s (Y.accept fd s.system) (L.accept_lem fd s.system) h)
    | inr e ↦ rw (e, serve) (respond-fits fd s (Y.receive fd s.system) h)
  ]

  after_select-fits :
      (s : Server State) (r : State × Selected)
      → s.fdmax < fd_setsize
      → ((after_select Y s r).1.fdmax < fd_setsize)
        × (work_left (after_select Y s r).0 ≤ fd_setsize + 2)
  after_select-fits s (y, failed) h = (h, omega arith)
  after_select-fits s (y, timed_out) h = (h, omega arith)
  after_select-fits s (y, ready rdset) h = (h, omega arith)

  pub advance-fits :
      (w : Worker) (s : Server State) → s.fdmax < fd_setsize → (advance Y w s).1.fdmax < fd_setsize
  unfolding advance
  advance-fits at_test s h = elim (Bool-cases s.impl.running) [
    | inl e ↦ rw (e, advance) h
    | inr e ↦ rw (e, advance) h
  ]
  advance-fits at_select s h = (after_select-fits s (Y.select (s.fdmax + 1) s.refset s.system) h).0
  advance-fits (at_descriptor rdset fd) s h = elim (Bool-cases (leb fd s.fdmax)) [
    | inl e ↦ (elim (Bool-cases (rdset fd)) [
      | inl r ↦ rw (e, r, advance) (serve-fits fd s h)
      | inr r ↦ rw (e, r, advance) h
    ])
    | inr e ↦ rw (e, advance) h
  ]
  advance-fits finished s h = h

  -- Each step of the thread brings it nearer to its end.
  pub work_left-advance :
      (w : Worker) (s : Server State)
      → s.impl.running ≡ false
      → s.fdmax < fd_setsize
      → work_left (advance Y w s).0 ≤ work_left w - 1
  unfolding advance
  work_left-advance at_test s e h = rw (e, advance) (omega arith)
  work_left-advance at_select s e h =
      let small = (after_select-fits s (Y.select (s.fdmax + 1) s.refset s.system) h).1 in
      omega (arith, small)
  work_left-advance (at_descriptor rdset fd) s e h = elim (Bool-cases (leb fd s.fdmax)) [
    | inl g ↦ rw (g, advance) (ground arith)
    | inr g ↦ rw (g, advance) (omega arith)
  ]
  work_left-advance finished s e h = omega arith

  close_socket-fits :
      (s : Server State) (o : Option ℕ)
      → s.fdmax < fd_setsize
      → (close_socket Y s o).fdmax < fd_setsize
  close_socket-fits s none h = h
  close_socket-fits s (some socket) h = h

  either-fits :
      (b : Bool) (s s' : Server State)
      → s.fdmax < fd_setsize
      → s'.fdmax < fd_setsize
      → (if b then s else s').fdmax < fd_setsize
  either-fits true s s' h h' = h
  either-fits false s s' h h' = h'

  pub proceed-fits :
      (c : Caller) (s : Server State) → s.fdmax < fd_setsize → (proceed Y c s).1.fdmax < fd_setsize
  unfolding proceed
  proceed-fits idle s h = h
  proceed-fits (writing a i []) s h = h
  proceed-fits (writing a i (v ∷ vs)) s h = h
  proceed-fits told s h =
      either-fits s.impl.ctx (close_socket Y s s.impl.server_socket) s
        (close_socket-fits s s.impl.server_socket h) h
  proceed-fits hung_up s h =
      either-fits s.impl.ctx (record s { system = Y.modbus_close s.system }) s h h
  proceed-fits joining s h = h
  proceed-fits joined s h = h
  proceed-fits unmapped s h = h
  proceed-fits stopped s h = h

  begin_stop-fits :
      (t : Threads State) → t.server.fdmax < fd_setsize → (begin_stop Y t).server.fdmax < fd_setsize
  begin_stop-fits t h = ground arith

  begin_call-fits :
      (e : Step) (c : Caller) (t : Threads State)
      → t.server.fdmax < fd_setsize
      → (begin_call Y e c t).server.fdmax < fd_setsize
  begin_call-fits call_stop idle t h = begin_stop-fits t h
  begin_call-fits (call_write a vs) idle t h = h
  begin_call-fits work idle t h = h
  begin_call-fits go_on idle t h = h
  begin_call-fits e c t h = h

  pub act-fits :
      (e : Step) (t : Threads State)
      → t.server.fdmax < fd_setsize
      → (act Y e t).server.fdmax < fd_setsize
  unfolding act
  act-fits work t h = advance-fits t.worker t.server h
  act-fits go_on t h = elim (Bool-cases (may_go t.caller t.worker t.server.impl)) [
    | inl g ↦ rw (g, act) (proceed-fits t.caller t.server h)
    | inr g ↦ rw (g, act) h
  ]
  act-fits call_stop t h = begin_call-fits call_stop t.caller t h
  act-fits (call_write a vs) t h = begin_call-fits (call_write a vs) t.caller t h
