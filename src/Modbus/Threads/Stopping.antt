-- ===== src/Modbus/Threads/Stopping.antt =====
-- The steps of `stop`, and what it leaves alone, while the server's thread goes on.
use hanport_data_parser.Base.{
  ℕ, ◌-◌, ◌≤◌, ◌<◌, Bool, true, false, List, [], ◌∷◌, Option, none, some, ◌≡◌, refl, ap, ◌∙◌, inl,
  inr, Bool-cases, if◌then◌else◌, arith,
}
use hanport_data_parser.Modbus.{Impl}
use hanport_data_parser.Modbus.Server.{System, Server, fd_setsize}
use hanport_data_parser.Modbus.Server.Laws.{IsLawful}
use hanport_data_parser.Modbus.Threads.{
  finished, Caller, idle, writing, told, hung_up, joining, joined, unmapped, stopped, Threads, Step,
  work, go_on, call_stop, call_write, advance, proceed, may_go, close_socket, begin_call, act, play,
}
use hanport_data_parser.Modbus.Threads.Phases.{advance-Kept}
use hanport_data_parser.Modbus.Threads.Progress.{
  IsStop, not_running, work_left, stop_left, as_work, as_go_on, count, advance-fits, proceed-fits,
  work_left-advance,
}
use hanport_data_parser.Modbus.Threads.Safety.{InPhase, act-InPhase, Phase-proceed}

-- What `stop` leaves alone.
abbrev pub IsOf : Impl → Impl → Type 0
IsOf m m' = (m'.port ≡ m.port) × (m'.registers ≡ m.registers)

module _ (Y : System) (L : IsLawful Y) (m : Impl) where
  open Y use {State}

  -- The program is in the `stop` of the object that was `m`.
  pub record IsStopping (t : Threads State) : Type 0 where
    pub in_stop : IsStop t.caller
    pub in_phase : InPhase Y t
    pub fits : t.server.fdmax < fd_setsize
    pub is_of : IsOf m t.server.impl

  close_socket-IsOf :
      (s : Server State) (o : Option ℕ) → IsOf m s.impl → IsOf m (close_socket Y s o).impl
  close_socket-IsOf s none h = h
  close_socket-IsOf s (some socket) h = h

  either-IsOf :
      (b : Bool) (s s' : Server State)
      → IsOf m s.impl
      → IsOf m s'.impl
      → IsOf m (if b then s else s').impl
  either-IsOf true s s' h h' = h
  either-IsOf false s s' h h' = h'

  proceed-IsStop :
      (c : Caller) (s : Server State)
      → IsStop c
      → IsOf m s.impl
      → IsStop (proceed Y c s).0
        × IsOf m (proceed Y c s).1.impl
        × (stop_left (proceed Y c s).0 ≡ stop_left c - 1)
  unfolding proceed
  proceed-IsStop idle s i h = elim i [ ]
  proceed-IsStop (writing a k vs) s i h = elim i [ ]
  proceed-IsStop told s i h = (
    tt,
    either-IsOf s.impl.ctx (close_socket Y s s.impl.server_socket) s
        (close_socket-IsOf s s.impl.server_socket h) h,
    refl,
  )
  proceed-IsStop hung_up s i h =
      (tt, either-IsOf s.impl.ctx (record s { system = Y.modbus_close s.system }) s h h, refl)
  proceed-IsStop joining s i h = (tt, h, refl)
  proceed-IsStop joined s i h = (tt, h, refl)
  proceed-IsStop unmapped s i h = (tt, h, refl)
  proceed-IsStop stopped s i h = (tt, h, refl)

  call_none : (e : Step) (c : Caller) (t : Threads State) → IsStop c → begin_call Y e c t ≡ t
  call_none e idle t i = elim i [ ]
  call_none e (writing a k vs) t i = elim i [ ]
  call_none e c t i = refl

  pub act-IsStopping : (e : Step) (t : Threads State) → IsStopping t → IsStopping (act Y e t)
  unfolding act
  act-IsStopping work t h = record {
    in_stop = h.in_stop;
    in_phase = act-InPhase Y work t h.in_phase;
    fits = advance-fits Y L t.worker t.server h.fits;
    is_of =
        let same = (advance-Kept Y t.worker t.server).0 in
        (
          ap (λ (x : Impl). x.port) same ∙ h.is_of.0,
          ap (λ (x : Impl). x.registers) same ∙ h.is_of.1,
        );
  }
  act-IsStopping go_on t h = elim (Bool-cases (may_go t.caller t.worker t.server.impl)) [
    | inl g ↦
        let next = proceed-IsStop t.caller t.server h.in_stop h.is_of in
        rw (g, act)
          (record {
            in_stop = next.0;
            in_phase = Phase-proceed Y t.caller t.worker t.server g h.in_phase;
            fits = proceed-fits Y L t.caller t.server h.fits;
            is_of = next.1;
          })
    | inr g ↦ rw (g, act) h
  ]
  act-IsStopping call_stop t h = rw (call_none call_stop t.caller t h.in_stop) h
  act-IsStopping (call_write a vs) t h = rw (call_none (call_write a vs) t.caller t h.in_stop) h

  -- In `stop`, no step but the server's thread's own touches its place.
  act-work_left :
      (e : Step) (t : Threads State)
      → IsStopping t
      → work_left (act Y e t).worker ≤ work_left t.worker - as_work e
  unfolding act
  act-work_left work t h =
      work_left-advance Y L t.worker t.server
        (not_running t.caller t.worker t.server.impl h.in_stop h.in_phase) h.fits
  act-work_left go_on t h = elim (Bool-cases (may_go t.caller t.worker t.server.impl)) [
    | inl g ↦ rw (g, act) (omega arith)
    | inr g ↦ rw (g, act) (omega arith)
  ]
  act-work_left call_stop t h = rw (call_none call_stop t.caller t h.in_stop) (omega arith)
  act-work_left (call_write a vs) t h =
      rw (call_none (call_write a vs) t.caller t h.in_stop) (omega arith)

  pub play-IsStopping :
      (es : List Step) (t : Threads State)
      → IsStopping t
      → IsStopping (play Y es t)
        × (work_left (play Y es t).worker ≤ work_left t.worker - count as_work es)
  play-IsStopping [] t h = (h, omega arith)
  play-IsStopping (e ∷ es) t h =
      let (later, less) = play-IsStopping es (act Y e t) (act-IsStopping e t h) in
      (later, omega (arith, less, act-work_left e t h))

  may_go-finished : (c : Caller) (m' : Impl) → may_go c finished m' ≡ true
  unfolding may_go
  may_go-finished joining m' = refl
  may_go-finished c m' = refl

  -- If the thread is over, nothing holds `stop` up.
  act-stop_left :
      (e : Step) (t : Threads State)
      → IsStopping t
      → t.worker ≡ finished
      → ((act Y e t).worker ≡ finished)
        × (stop_left (act Y e t).caller ≤ stop_left t.caller - as_go_on e)
  unfolding act advance
  act-stop_left work t h o = rw o (refl, omega arith)
  act-stop_left go_on t h o =
      let g : may_go t.caller t.worker t.server.impl ≡ true =
        rw o (may_go-finished t.caller t.server.impl) in
      rw (g, act) (o, omega (arith, (proceed-IsStop t.caller t.server h.in_stop h.is_of).2))
  act-stop_left call_stop t h o = rw (call_none call_stop t.caller t h.in_stop) (o, omega arith)
  act-stop_left (call_write a vs) t h o =
      rw (call_none (call_write a vs) t.caller t h.in_stop) (o, omega arith)

  pub play-stop_left :
      (es : List Step) (t : Threads State)
      → IsStopping t
      → t.worker ≡ finished
      → stop_left (play Y es t).caller ≤ stop_left t.caller - count as_go_on es
  play-stop_left [] t h o = omega arith
  play-stop_left (e ∷ es) t h o =
      let (over, less) = act-stop_left e t h o in
      omega (arith, less, play-stop_left es (act Y e t) (act-IsStopping e t h) over)
