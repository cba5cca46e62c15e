-- ===== src/Modbus/Server/Same.antt =====
-- The server's thread changes nothing of the object but the mapping.
use hanport_data_parser.Base.{
  ℕ, ◌+◌, List, [], ◌∷◌, Option, none, some, ◌≡◌, refl, sym, ap, ◌∙◌, inl, inr, Bool-cases,
}
use hanport_data_parser.Modbus.{Impl, set_from, write_mapping, set_holding_registers}
use hanport_data_parser.Modbus.Server.{
  Received, query, ignored, broken, System, Server, watch, respond, is_server, serve,
}
use hanport_data_parser.Modbus.Server.Pass.{serve_each}

-- The object without its mapping.
abbrev pub forget : Impl → Impl
forget m = record m { mb_mapping = none }

-- Two objects that differ at most in the mapping.
abbrev pub Same : Impl → Impl → Type 0
Same m m' = forget m ≡ forget m'

set_from-forget :
    (values : List ℕ) (address i : ℕ) (m : Impl)
    → forget (set_from address i values m) ≡ set_from address i values (forget m)
unfolding set_from write_mapping
set_from-forget [] address i m = refl
set_from-forget (v ∷ values) address i m = set_from-forget values address (i + 1) _

pub set_holding_registers-Same :
    (address : ℕ) (values : List ℕ) (m m' : Impl)
    → Same m m'
    → Same (set_holding_registers address values m) (set_holding_registers address values m')
unfolding set_holding_registers
set_holding_registers-Same address values m m' e =
    set_from-forget values address 0 m
    ∙ ap (set_from address 0 values) e
    ∙ sym (set_from-forget values address 0 m')

set_from-socket :
    (values : List ℕ) (address i : ℕ) (m : Impl)
    → (set_from address i values m).server_socket ≡ m.server_socket
unfolding set_from
set_from-socket [] address i m = refl
set_from-socket (v ∷ values) address i m = set_from-socket values address (i + 1) _

pub set_holding_registers-socket :
    (address : ℕ) (values : List ℕ) (m : Impl)
    → (set_holding_registers address values m).server_socket ≡ m.server_socket
unfolding set_holding_registers
set_holding_registers-socket address values m = set_from-socket values address 0 m

module _ (Y : System) where
  open Y use {State}

  respond-forget :
      (fd : ℕ) (s : Server State) (r : State × Received)
      → forget (respond Y fd s r).impl ≡ forget s.impl
  respond-forget fd s (y, query q) = refl
  respond-forget fd s (y, ignored) = refl
  respond-forget fd s (y, broken) = refl

  watch-impl : (s : Server State) (r : State × Option ℕ) → (watch Y s r).impl ≡ s.impl
  watch-impl s (y, none) = refl
  watch-impl s (y, some n) = refl

  pub serve-forget : (fd : ℕ) (s : Server State) → forget (serve Y fd s).impl ≡ forget s.impl
  unfolding serve
  serve-forget fd s = elim (Bool-cases (is_server Y fd s.impl)) [
    | inl e ↦ rw (e, serve) (ap forget (watch-impl s (Y.accept fd s.system)))
    | inr e ↦ rw (e, serve) (respond-forget fd s (Y.receive fd s.system))
  ]

  pub serve_each-Same :
      (fds : List ℕ) (s : Server State) (m : Impl)
      → Same m s.impl
      → Same m (serve_each Y fds s).impl
  serve_each-Same [] s m e = e
  serve_each-Same (fd ∷ fds) s m e =
      serve_each-Same fds (serve Y fd s) m (e ∙ sym (serve-forget fd s))
