-- ===== src/Modbus/Threads/Hangup.antt =====
-- A `stop` that comes while the server's thread is in its `for` loop: the thread compares descriptors
-- with a socket that is forgotten.
use hanport_data_parser.Base.{
  ℕ, Option, ◌==◌, ◌≤◌, Bool, true, false, some, none, ◌≡◌, refl, ap, ◌∙◌, leb, if◌then◌else◌,
  arith, [], ◌∷◌,
}
use hanport_data_parser.Modbus.Server.{
  FdSet, broken, System, Server, watch, respond, drop_client, serve,
}
use hanport_data_parser.Modbus.Threads.{
  at_descriptor, told, work, go_on, advance, proceed, may_go, act, play, close_socket, hang_up,
}

module _ (Y : System) where
  open Y use {State}

  hang_up-close_socket :
      (s : Server State) (socket : ℕ)
      → s.impl.ctx ≡ true
      → s.impl.server_socket ≡ some socket
      → hang_up Y s ≡ close_socket Y s (some socket)
  hang_up-close_socket s socket ctx listens =
      ap (λ (b : Bool). if b then close_socket Y s s.impl.server_socket else s) ctx
      ∙ ap (close_socket Y s) listens

  advance-serve :
      (s : Server State) (rdset : FdSet) (fd : ℕ)
      → rdset fd ≡ true
      → fd ≤ s.fdmax
      → (advance Y (at_descriptor rdset fd) s).1 ≡ serve Y fd s
  unfolding advance
  advance-serve s rdset fd r h =
      let within : leb fd s.fdmax ≡ true = ground arith in rw (within, r, advance) refl

  -- A thread with no listening socket to compare with serves every descriptor as a client.
  serve-respond :
      (s : Server State) (fd : ℕ)
      → s.impl.server_socket ≡ none
      → serve Y fd s ≡ respond Y fd s (Y.receive fd s.system)
  unfolding serve
  serve-respond s fd e =
      ap
        (λ (o : Option ℕ).
          if (elim o [ none ↦ false | some socket ↦ fd == socket ])
          then watch Y s (Y.accept fd s.system)
          else respond Y fd s (Y.receive fd s.system))
        e

  -- If `stop` closes the listening socket after `select` has reported it and before the `for` loop
  -- comes to it, then the loop takes it for a client: it sets it as the socket of the context and
  -- receives from it. If that fails, as it does on a closed descriptor, the loop closes the
  -- descriptor a second time.
  pub hang_up-serve :
      (s : Server State) (rdset : FdSet) (socket : ℕ) (y : State)
      → s.impl.ctx ≡ true
      → s.impl.server_socket ≡ some socket
      → rdset socket ≡ true
      → socket ≤ s.fdmax
      → Y.receive socket (Y.close socket (Y.shutdown socket s.system)) ≡ (y, broken)
      → (play Y
          (go_on ∷ work ∷ [])
          (record { server = s; worker = at_descriptor rdset socket; caller = told })).server
        ≡ drop_client Y socket y (close_socket Y s (some socket))
  unfolding act proceed may_go
  hang_up-serve s rdset socket y ctx listens reported within failed =
      let closed = close_socket Y s (some socket) in
      ap (λ (u : Server State). (advance Y (at_descriptor rdset socket) u).1)
        (hang_up-close_socket s socket ctx listens)
      ∙ advance-serve closed rdset socket reported within
      ∙ serve-respond closed socket refl
      ∙ ap (respond Y socket closed) failed
