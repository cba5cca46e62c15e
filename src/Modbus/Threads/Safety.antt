-- ===== src/Modbus/Threads/Safety.antt =====
-- Every interleaving of the server's thread with the program goes through the phases.
use mathlib.Core.Path.{subst}
use hanport_data_parser.Base.{
  ℕ, ◌+◌, Bool, true, false, List, [], ◌∷◌, Option, none, some, ◌≡◌, ◌≢◌, refl, sym, ap, ◌∙◌, inl,
  inr, ◌⊎◌, Bool-cases, if◌then◌else◌,
}
use hanport_data_parser.Modbus.{Impl}
use hanport_data_parser.Modbus.Lifecycle.{IsConsistent, write_mapping-none}
use hanport_data_parser.Modbus.Server.{System, Server}
use hanport_data_parser.Modbus.Threads.{
  Worker, at_test, at_select, at_descriptor, finished, Caller, idle, writing, told, hung_up,
  joining, joined, unmapped, stopped, Threads, Step, work, go_on, call_stop, call_write, advance,
  close_socket, proceed, may_go, begin_stop, call, begin_call, act, play, write_one,
}
use hanport_data_parser.Modbus.Threads.Phases.{Held, Phase, Kept-Held, advance-Kept}

write_one-Held :
    (b : Bool) (address i v : ℕ) (m : Impl) → Held b m → Held b (write_one address i v m)
write_one-Held b address i v m (r, j, c, n) =
    (r, j, c, λ e. n ((write_mapping-none (address + i) v m.mb_mapping).0 e))

module _ (Y : System) where
  open Y use {State}

  abbrev pub InPhase : Threads State → Type 0
  InPhase t = Phase t.caller t.worker t.server.impl

  socket_kept :
      (w : Worker) (s : Server State) → (advance Y w s).1.impl.server_socket ≡ s.impl.server_socket
  socket_kept w s = ap (λ (m : Impl). m.server_socket) (advance-Kept Y w s).0

  -- A thread that is over makes no step.
  over :
      (c : Caller) (w : Worker) (s : Server State)
      → w ≡ finished
      → Phase c w s.impl
      → Phase c (advance Y w s).0 (advance Y w s).1.impl
  unfolding advance
  over c w s e h =
      subst (λ v. Phase c v s.impl → Phase c (advance Y v s).0 (advance Y v s).1.impl) (sym e)
        (λ k. k) h

  Phase-advance :
      (c : Caller) (w : Worker) (s : Server State)
      → Phase c w s.impl
      → Phase c (advance Y w s).0 (advance Y w s).1.impl
  Phase-advance idle w s h =
      (Kept-Held true s.impl _ (advance-Kept Y w s) h.0, λ e. h.1 (sym (socket_kept w s) ∙ e))
  Phase-advance (writing a i vs) w s h =
      (Kept-Held true s.impl _ (advance-Kept Y w s) h.0, λ e. h.1 (sym (socket_kept w s) ∙ e))
  Phase-advance told w s h =
      (Kept-Held false s.impl _ (advance-Kept Y w s) h.0, λ e. h.1 (sym (socket_kept w s) ∙ e))
  Phase-advance hung_up w s h =
      (Kept-Held false s.impl _ (advance-Kept Y w s) h.0, socket_kept w s ∙ h.1)
  Phase-advance joining w s h =
      (Kept-Held false s.impl _ (advance-Kept Y w s) h.0, socket_kept w s ∙ h.1)
  Phase-advance joined w s h = over joined w s h.0.0 h
  Phase-advance unmapped w s h = over unmapped w s h.0.0 h
  Phase-advance stopped w s h = over stopped w s h.0.0 h

  close_socket-Phase :
      (w : Worker) (s : Server State) (o : Option ℕ)
      → s.impl.server_socket ≡ o
      → Held false s.impl
      → Phase hung_up w (close_socket Y s o).impl
  close_socket-Phase w s none e h = (h, e)
  close_socket-Phase w s (some n) e h = (h, refl)

  join-Phase :
      (w : Worker) (m : Impl)
      → may_go joining w m ≡ true
      → Phase joining w m
      → Phase joined w (record m { joinable = false })
  unfolding may_go
  join-Phase w m g ((r, j, c, n), e) = ((over_now w g, r, refl, e), c, n)
    where
      over_now : (w' : Worker) → may_go joining w' m ≡ true → w' ≡ finished
      over_now finished k = refl
      over_now at_test k = absurd cc
      over_now at_select k = absurd cc
      over_now (at_descriptor rdset fd) k = absurd cc

  pub Phase-proceed :
      (c : Caller) (w : Worker) (s : Server State)
      → may_go c w s.impl ≡ true
      → Phase c w s.impl
      → Phase (proceed Y c s).0 w (proceed Y c s).1.impl
  unfolding proceed
  Phase-proceed idle w s g h = h
  Phase-proceed (writing address i []) w s g h = h
  Phase-proceed (writing address i (v ∷ vs)) w s g h =
      (write_one-Held true address i v s.impl h.0, h.1)
  Phase-proceed told w s g h =
      subst
        (λ (b : Bool).
          Phase hung_up w (if b then close_socket Y s s.impl.server_socket else s).impl)
        (sym h.0.2) (close_socket-Phase w s s.impl.server_socket refl h.0)
  Phase-proceed hung_up w s g h =
      subst
        (λ (b : Bool).
          Phase joining w (if b then record s { system = Y.modbus_close s.system } else s).impl)
        (sym h.0.2) h
  Phase-proceed joining w s g h = join-Phase w s.impl g h
  Phase-proceed joined w s g h = (h.0, h.1, refl)
  Phase-proceed unmapped w s g h = (h.0, refl, h.2)
  Phase-proceed stopped w s g h = h

  begin_stop-InPhase :
      (t : Threads State)
      → t.caller ≡ idle
      → Phase idle t.worker t.server.impl
      → InPhase (begin_stop Y t)
  begin_stop-InPhase t q ((r, j, c, n), k) = rw r ((refl, j, c, n), k)

  call-InPhase :
      (e : Step) (t : Threads State)
      → t.caller ≡ idle
      → Phase idle t.worker t.server.impl
      → InPhase t
      → InPhase (call Y e t)
  call-InPhase call_stop t q h k = begin_stop-InPhase t q h
  call-InPhase (call_write a vs) t q h k = h
  call-InPhase work t q h k = k
  call-InPhase go_on t q h k = k

  begin_call-InPhase :
      (e : Step) (c : Caller) (t : Threads State)
      → t.caller ≡ c
      → InPhase t
      → InPhase (begin_call Y e c t)
  begin_call-InPhase e idle t q h =
      call-InPhase e t q (subst (λ c. Phase c t.worker t.server.impl) q h) h
  begin_call-InPhase e c t q h = h

  pub act-InPhase : (e : Step) (t : Threads State) → InPhase t → InPhase (act Y e t)
  unfolding act
  act-InPhase work t h = Phase-advance t.caller t.worker t.server h
  act-InPhase go_on t h = elim (Bool-cases (may_go t.caller t.worker t.server.impl)) [
    | inl g ↦ rw (g, act) (Phase-proceed t.caller t.worker t.server g h)
    | inr g ↦ rw (g, act) h
  ]
  act-InPhase call_stop t h = begin_call-InPhase call_stop t.caller t refl h
  act-InPhase (call_write a vs) t h = begin_call-InPhase (call_write a vs) t.caller t refl h

  pub play-InPhase : (es : List Step) (t : Threads State) → InPhase t → InPhase (play Y es t)
  play-InPhase [] t h = h
  play-InPhase (e ∷ es) t h = play-InPhase es (act Y e t) (act-InPhase e t h)

  -- A server that runs, with its thread in front of its loop and the program in no method.
  abbrev pub begun : Server State → Threads State
  begun s = record { server = s; worker = at_test; caller = idle }

  pub begun-InPhase :
      (s : Server State) → IsConsistent s.impl → s.impl.running ≡ true → InPhase (begun s)
  begun-InPhase s c r =
      let (j, ctx, mapping, socket) = c.when_running r in ((r, j, ctx, mapping), socket)

  held_or_finished :
      (c : Caller) (w : Worker) (m : Impl)
      → Phase c w m
      → (w ≡ finished) ⊎ ((m.ctx ≡ true) × (m.mb_mapping ≢ none))
  held_or_finished idle w m h = inr (h.0.2, h.0.3)
  held_or_finished (writing a i vs) w m h = inr (h.0.2, h.0.3)
  held_or_finished told w m h = inr (h.0.2, h.0.3)
  held_or_finished hung_up w m h = inr (h.0.2, h.0.3)
  held_or_finished joining w m h = inr (h.0.2, h.0.3)
  held_or_finished joined w m h = inl h.0.0
  held_or_finished unmapped w m h = inl h.0.0
  held_or_finished stopped w m h = inl h.0.0

  -- However the steps of the two threads and the program's calls follow one another: as long as the
  -- server's thread is not over, the context and the mapping that it uses are allocated. What
  -- is allocated, and whether the server runs, is what the program's place says.
  pub play-begun :
      (es : List Step) (s : Server State)
      → IsConsistent s.impl
      → s.impl.running ≡ true
      → let t = play Y es (begun s) in
        ((t.worker ≡ finished) ⊎ ((t.server.impl.ctx ≡ true) × (t.server.impl.mb_mapping ≢ none)))
        × InPhase t
  play-begun es s c r =
      let t = play Y es (begun s) in
      let h = play-InPhase es (begun s) (begun-InPhase s c r) in
      (held_or_finished t.caller t.worker t.server.impl h, h)
