-- ===== src/Modbus/Threads/Phases.antt =====
-- What is allocated while the program is in a method, whatever the server's thread does meanwhile.
use hanport_data_parser.Base.{
  ℕ, ◌+◌, Bool, true, false, List, Option, none, some, ◌≡◌, ◌≢◌, refl, ap, ◌∙◌, inl, inr,
  Bool-cases, leb,
}
use hanport_data_parser.Modbus.{Impl}
use hanport_data_parser.Modbus.Server.{
  Selected, failed, timed_out, ready, Received, query, ignored, broken, System, Server, watch,
  answer, respond, is_server, serve,
}
use hanport_data_parser.Modbus.Server.Same.{Same, serve-forget}
use hanport_data_parser.Modbus.Threads.{
  Worker, at_test, at_select, at_descriptor, finished, Caller, idle, writing, told, hung_up,
  joining, joined, unmapped, stopped, after_select, advance,
}

-- A thread that was started and not joined, a context and a mapping.
abbrev pub Held : Bool → Impl → Type 0
Held b m = (m.running ≡ b) × (m.joinable ≡ true) × (m.ctx ≡ true) × (m.mb_mapping ≢ none)

-- The thread is over and joined, and the socket closed.
abbrev pub Joined : Worker → Impl → Type 0
Joined w m = (w ≡ finished) × (m.running ≡ false) × (m.joinable ≡ false) × (m.server_socket ≡ none)

abbrev pub Phase : Caller → Worker → Impl → Type 0
Phase idle w m = Held true m × (m.server_socket ≢ none)
Phase (writing address i values) w m = Held true m × (m.server_socket ≢ none)
Phase told w m = Held false m × (m.server_socket ≢ none)
Phase hung_up w m = Held false m × (m.server_socket ≡ none)
Phase joining w m = Held false m × (m.server_socket ≡ none)
Phase joined w m = Joined w m × (m.ctx ≡ true) × (m.mb_mapping ≢ none)
Phase unmapped w m = Joined w m × (m.ctx ≡ true) × (m.mb_mapping ≡ none)
Phase stopped w m = Joined w m × (m.ctx ≡ false) × (m.mb_mapping ≡ none)

-- Nothing but the mapping is changed, and that is not taken away.
abbrev pub Kept : Impl → Impl → Type 0
Kept m m' = Same m' m × (m.mb_mapping ≢ none → m'.mb_mapping ≢ none)

pub Kept-Held : (b : Bool) (m m' : Impl) → Kept m m' → Held b m → Held b m'
Kept-Held b m m' (same, mapped) h = (
  ap (λ (x : Impl). x.running) same ∙ h.0,
  ap (λ (x : Impl). x.joinable) same ∙ h.1,
  ap (λ (x : Impl). x.ctx) same ∙ h.2,
  mapped h.3,
)

module _ (Y : System) where
  open Y use {State}

  respond_mapped :
      (fd : ℕ) (s : Server State) (r : State × Received)
      → s.impl.mb_mapping ≢ none
      → (respond Y fd s r).impl.mb_mapping ≢ none
  respond_mapped fd s (y, query q) h = by_mapping s.impl.mb_mapping h
    where
      by_mapping : (o : Option (List ℕ)) → o ≢ none → (answer Y q o y).1 ≢ none
      by_mapping none n = n
      by_mapping (some tab) n = λ e. cc
  respond_mapped fd s (y, ignored) h = h
  respond_mapped fd s (y, broken) h = h

  watch_mapped :
      (s : Server State) (r : State × Option ℕ)
      → s.impl.mb_mapping ≢ none
      → (watch Y s r).impl.mb_mapping ≢ none
  watch_mapped s (y, none) h = h
  watch_mapped s (y, some n) h = h

  serve-Kept : (fd : ℕ) (s : Server State) → Kept s.impl (serve Y fd s).impl
  unfolding serve
  serve-Kept fd s = (
    serve-forget Y fd s,
    λ h. elim (Bool-cases (is_server Y fd s.impl)) [
      | inl e ↦ rw (e, serve) (watch_mapped s (Y.accept fd s.system) h)
      | inr e ↦ rw (e, serve) (respond_mapped fd s (Y.receive fd s.system) h)
    ],
  )

  after_select-Kept :
      (s : Server State) (r : State × Selected) → Kept s.impl (after_select Y s r).1.impl
  after_select-Kept s (y, failed) = (refl, λ h. h)
  after_select-Kept s (y, timed_out) = (refl, λ h. h)
  after_select-Kept s (y, ready rdset) = (refl, λ h. h)

  -- The server's thread changes nothing of the object but the mapping.
  pub advance-Kept : (w : Worker) (s : Server State) → Kept s.impl (advance Y w s).1.impl
  unfolding advance
  advance-Kept at_test s = elim (Bool-cases s.impl.running) [
    | inl e ↦ rw (e, advance) (refl, λ h. h)
    | inr e ↦ rw (e, advance) (refl, λ h. h)
  ]
  advance-Kept at_select s = after_select-Kept s (Y.select (s.fdmax + 1) s.refset s.system)
  advance-Kept (at_descriptor rdset fd) s = elim (Bool-cases (leb fd s.fdmax)) [
    | inl e ↦ (elim (Bool-cases (rdset fd)) [
      | inl r ↦ rw (e, r, advance) (serve-Kept fd s)
      | inr r ↦ rw (e, r, advance) (refl, λ h. h)
    ])
    | inr e ↦ rw (e, advance) (refl, λ h. h)
  ]
  advance-Kept finished s = (refl, λ h. h)
