-- ===== src/Modbus/Threads/Returns.antt =====
-- `stop` comes to its end, and to what it is for, while the server's thread goes on.
use mathlib.Core.Path.{subst}
use hanport_data_parser.Base.{
  ◌+◌, ◌≤◌, ◌<◌, Bool, true, false, List, [], ◌∷◌, ◌≡◌, refl, sym, ap, ◌∙◌, if◌then◌else◌, arith,
}
use hanport_data_parser.Modbus.{Impl, stop}
use hanport_data_parser.Modbus.Lifecycle.{IsConsistent}
use hanport_data_parser.Modbus.Server.{System, Server, fd_setsize}
use hanport_data_parser.Modbus.Server.Laws.{IsLawful}
use hanport_data_parser.Modbus.Threads.{
  Worker, at_test, at_select, at_descriptor, finished, Caller, idle, writing, told, hung_up,
  stopped, Threads, Step, call_stop, begin_call, act, play,
}
use hanport_data_parser.Modbus.Threads.Phases.{Phase}
use hanport_data_parser.Modbus.Threads.Progress.{
  IsStop, work_left, stop_left, as_work, as_go_on, count, act-fits,
}
use hanport_data_parser.Modbus.Threads.Safety.{InPhase, begun, begun-InPhase, play-InPhase}
use hanport_data_parser.Modbus.Threads.Stopping.{IsOf, IsStopping, play-IsStopping, play-stop_left}

module _ (Y : System) (L : IsLawful Y) (m : Impl) where
  open Y use {State}

  at_end :
      (c : Caller) (w : Worker) (m' : Impl)
      → IsStop c
      → stop_left c ≡ 0
      → Phase c w m'
      → IsOf m m'
      → (c ≡ stopped) × Phase stopped w m'
  at_end idle w m' i e h o = elim i [ ]
  at_end (writing a k vs) w m' i e h o = elim i [ ]
  at_end stopped w m' i e h o = (refl, h)
  at_end c w m' i e h o = absurd (omega (arith, e))

  over : (w : Worker) → work_left w ≡ 0 → w ≡ finished
  over finished e = refl
  over at_test e = absurd (omega (arith, e))
  over at_select e = absurd (omega (arith, e))
  over (at_descriptor rdset fd) e = absurd (omega (arith, e))

  stop-Phase :
      (w : Worker) (m' : Impl)
      → m.running ≡ true
      → m.ctx ≡ true
      → Phase stopped w m'
      → IsOf m m'
      → m' ≡ stop m
  unfolding stop
  stop-Phase w m' r k h o = rw (r, k) (cc (h.0.1, h.0.2, h.0.3, h.1, h.2, o.0, o.1))

  stop_left-le : (c : Caller) → stop_left c ≤ 5
  stop_left-le told = omega arith
  stop_left-le hung_up = omega arith
  stop_left-le c = omega arith

  -- From the place behind the lock of `stop` to its end.
  told-stop :
      (es fs : List Step) (t : Threads State)
      → m.running ≡ true
      → m.ctx ≡ true
      → t.caller ≡ told
      → IsStopping Y L m t
      → work_left t.worker ≤ count as_work es
      → 5 ≤ count as_go_on fs
      → let t' = play Y fs (play Y es t) in
        (t'.caller ≡ stopped) × (t'.worker ≡ finished) × (t'.server.impl ≡ stop m)
  told-stop es fs t r k q h few enough =
      let (waited, left) = play-IsStopping Y L m es t h in
      let t₁ = play Y es t in
      let (ended, less) = play-IsStopping Y L m fs t₁ waited in
      let t' = play Y fs t₁ in
      let none_left =
        play-stop_left Y L m fs t₁ waited (over t₁.worker (omega (arith, left, few))) in
      let bound = stop_left-le t₁.caller in
      let (is_stopped, phase) =
        at_end t'.caller t'.worker t'.server.impl ended.in_stop
          (omega (arith, none_left, bound, enough)) ended.in_phase ended.is_of in
      (is_stopped, phase.0.0, stop-Phase t'.worker t'.server.impl r k phase ended.is_of)

module _ (Y : System) (L : IsLawful Y) where
  open Y use {State}

  work_left-le : (w : Worker) → work_left w ≤ fd_setsize + 3
  work_left-le at_test = omega arith
  work_left-le w = omega arith

  play-fits :
      (es : List Step) (t : Threads State)
      → t.server.fdmax < fd_setsize
      → (play Y es t).server.fdmax < fd_setsize
  play-fits [] t h = h
  play-fits (e ∷ es) t h = play-fits es (act Y e t) (act-fits Y L e t h)

  stop-begins :
      (t : Threads State)
      → InPhase Y t
      → t.caller ≡ idle
      → t.server.fdmax < fd_setsize
      → ((act Y call_stop t).caller ≡ told)
        × IsStopping Y L t.server.impl (act Y call_stop t)
        × (t.server.impl.running ≡ true)
        × (t.server.impl.ctx ≡ true)
  unfolding act
  stop-begins t h q fits =
      let (held, socket) = subst (λ (c : Caller). Phase c t.worker t.server.impl) q h in
      let from_told : Threads State = record t {
        caller = told;
        server = record t.server { impl = record t.server.impl { running = false } };
      } in
      let same : act Y call_stop t ≡ from_told =
        ap (λ (c : Caller). begin_call Y call_stop c t) q
        ∙ ap (λ (b : Bool). if b then from_told else t) held.0 in
      subst
        (λ (u : Threads State).
          (u.caller ≡ told)
          × IsStopping Y L t.server.impl u
          × (t.server.impl.running ≡ true)
          × (t.server.impl.ctx ≡ true))
        (sym same)
        (
          refl,
          record {
            in_stop = tt;
            in_phase = ((refl, held.1, held.2, held.3), socket);
            fits = fits;
            is_of = (refl, refl);
          },
          held.0,
          held.2,
        )

  -- Whatever the two threads have done, and however their steps follow one another from the call of
  -- `stop` on: `stop` returns once the server's thread has made 1027 steps and the program then
  -- five. The thread is over then, and the object is what `stop` leaves when it runs alone.
  pub play-stop :
      (before es fs : List Step) (s : Server State)
      → IsConsistent s.impl
      → s.impl.running ≡ true
      → s.fdmax < fd_setsize
      → (play Y before (begun Y s)).caller ≡ idle
      → fd_setsize + 3 ≤ count as_work es
      → 5 ≤ count as_go_on fs
      → let t = play Y before (begun Y s) in
        let t' = play Y fs (play Y es (act Y call_stop t)) in
        (t'.caller ≡ stopped) × (t'.worker ≡ finished) × (t'.server.impl ≡ stop t.server.impl)
  play-stop before es fs s c r fits q few enough =
      let t = play Y before (begun Y s) in
      let phase = play-InPhase Y before (begun Y s) (begun-InPhase Y s c r) in
      let (is_told, stopping, running, ctx) =
        stop-begins t phase q (play-fits before (begun Y s) fits) in
      told-stop Y L t.server.impl es fs (act Y call_stop t) running ctx is_told stopping
        (omega (arith, work_left-le (act Y call_stop t).worker, few)) enough
