-- ===== src/Modbus/Threads/Alone.antt =====
-- A thread that makes its steps with no step of the other between them: then the steps of the
-- server's thread come to its turns, and those of a write to `set_holding_registers`.
use hanport_data_parser.Base.{Bool, true, false, ◌≡◌}
use hanport_data_parser.Modbus.Server.{System, Server, Turn, again, ended, no_fuel}
use hanport_data_parser.Modbus.Threads.{
  Worker, at_test, finished, Caller, Threads, Step, work, advance, proceed, may_go,
}
use hanport_data_parser.Modbus.Threads

module _ (Y : System) where
  open Y use {State}

  abbrev pub place : Caller → Worker → Server State → Threads State
  place c w s = record { server = s; worker = w; caller = c }

  -- Where a turn begins and where the thread is over.
  abbrev at_rest : Worker → Bool
  at_rest at_test = true
  at_rest finished = true
  at_rest _ = false

  -- The steps of the server's thread from a place up to the first one that comes to its test again
  -- or ends it.
  pub data Round : Worker → Server State → Worker → Server State → Type 0 where
    last_step :
        {w w' : Worker} {s s' : Server State}
        → advance Y w s ≡ (w', s')
        → at_rest w' ≡ true
        → Round w s w' s'
    next_step :
        {w w₁ w' : Worker} {s s₁ s' : Server State}
        → advance Y w s ≡ (w₁, s₁)
        → at_rest w₁ ≡ false
        → Round w₁ s₁ w' s'
        → Round w s w' s'

  -- A turn is what one round of steps comes to.
  abbrev pub Comes : Server State → Turn State → Type 0
  Comes s (again s') = Round at_test s at_test s'
  Comes s (ended s') = Round at_test s finished s'
  Comes s no_fuel = ⊥
