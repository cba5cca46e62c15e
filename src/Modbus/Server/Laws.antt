-- ===== src/Modbus/Server/Laws.antt =====
-- What the server's thread relies on of the system, as its manual pages document it, and the
-- invariant of the thread's variables.
use hanport_data_parser.Base.{
  ℕ, ◌≤◌, ◌<◌, true, false, Option, none, some, ◌≡◌, refl, sym, ◌∙◌, inl, inr, ◌==◌, Bool-cases,
  ◌≢◌, List, arith,
}
use hanport_data_parser.Base.Bytes.{Bytes}
use hanport_data_parser.Modbus.Server.{
  FdSet, Selected, failed, timed_out, ready, Received, query, ignored, broken, System, Server,
  watch, answer, drop_client, respond, is_server, serve, fd_setsize,
}

module _ (Y : System) where
  open Y use {State, is_open}

  -- The same descriptors are open.
  abbrev pub Keeps : State → State → Type 0
  Keeps y y' = (k : ℕ) → is_open y' k ≡ is_open y k

  -- `accept` opens a descriptor that was not open, or none.
  abbrev pub Accepts : State → State × Option ℕ → Type 0
  Accepts y (y', none) = Keeps y y'
  Accepts y (y', some n) =
      (is_open y n ≡ false) × (is_open y' n ≡ true) × ((k : ℕ) → k ≢ n → is_open y' k ≡ is_open y k)

  -- `select` reports descriptors below its first argument, of the set that it is given.
  abbrev pub Selects : ℕ → FdSet → State → State × Selected → Type 0
  Selects n refset y (y', failed) = Keeps y y'
  Selects n refset y (y', timed_out) = Keeps y y'
  Selects n refset y (y', ready rdset) =
      Keeps y y' × ((k : ℕ) → rdset k ≡ true → (refset k ≡ true) × (k < n))

  -- A process has at most `FD_SETSIZE` descriptors, which is the default limit.
  pub record IsLawful : Type 0 where
    pub open-lt : (y : State) (k : ℕ) → is_open y k ≡ true → k < fd_setsize
    pub select_lem : (n : ℕ) (r : FdSet) (y : State) → Selects n r y (Y.select n r y)
    pub accept_lem : (socket : ℕ) (y : State) → Accepts y (Y.accept socket y)
    pub receive_lem : (fd : ℕ) (y : State) → Keeps y (Y.receive fd y).0
    pub reply_lem : (q : Bytes) (tab : List ℕ) (y : State) → Keeps y (Y.reply q tab y).0
    pub close_lem : (fd k : ℕ) (y : State) → k ≢ fd → is_open (Y.close fd y) k ≡ is_open y k

  -- The listening socket is watched; what is watched is open and not above `fdmax`; `fdmax` fits
  -- into an `fd_set`.
  pub record IsWatched (s : Server State) : Type 0 where
    pub socket : ℕ
    pub listens : s.impl.server_socket ≡ some socket
    pub socket_watched : s.refset socket ≡ true
    pub watched-le : (k : ℕ) → s.refset k ≡ true → k ≤ s.fdmax
    pub watched_open : (k : ℕ) → s.refset k ≡ true → is_open s.system k ≡ true
    pub fdmax-lt : s.fdmax < fd_setsize

  module _ (L : IsLawful) where
    -- The system may have moved on without opening or closing a descriptor.
    pub Keeps-IsWatched :
        (s : Server State) (y : State)
        → Keeps s.system y
        → IsWatched s
        → IsWatched (record s { system = y })
    Keeps-IsWatched s y k w = record {
      socket = w.socket;
      listens = w.listens;
      socket_watched = w.socket_watched;
      watched-le = w.watched-le;
      watched_open = λ i h. k i ∙ w.watched_open i h;
      fdmax-lt = w.fdmax-lt;
    }

    watch-IsWatched :
        (s : Server State) (r : State × Option ℕ)
        → Accepts s.system r
        → IsWatched s
        → IsWatched (watch Y s r)
    watch-IsWatched s (y, none) a w = Keeps-IsWatched s y a w
    watch-IsWatched s (y, some n) a w = record {
      socket = w.socket;
      listens = w.listens;
      socket_watched = ground (arith, w.socket_watched);
      watched-le = λ k h. ground (arith, w.watched-le k);
      watched_open = λ k h. elim (Bool-cases (k == n)) [
        | inl e ↦ let same : k ≡ n = ground arith in rw same a.1
        | inr e ↦ a.2 k (ground arith) ∙ w.watched_open k (rw e at h)
      ];
      fdmax-lt = ground (arith, L.open-lt y n a.1, w.fdmax-lt);
    }

    drop_client-IsWatched :
        (fd : ℕ) (s : Server State) (y : State)
        → Keeps s.system y
        → (w : IsWatched s) → w.socket ≢ fd
        → IsWatched (drop_client Y fd y s)
    drop_client-IsWatched fd s y keeps w ne = record {
      socket = w.socket;
      listens = w.listens;
      socket_watched = ground (arith, w.socket_watched);
      watched-le = λ k h. ground (arith, w.watched-le k);
      watched_open = λ k h. elim (Bool-cases (k == fd)) [
        | inl e ↦ absurd (false_ne (rw e at h))
        | inr e ↦ L.close_lem fd k y (ground arith) ∙ keeps k ∙ w.watched_open k (rw e at h)
      ];
      fdmax-lt = ground (arith, w.fdmax-lt);
    }
      where
        false_ne : false ≢ true
        false_ne e = cc

    answer-Keeps : (q : Bytes) (tab : Option (List ℕ)) (y : State) → Keeps y (answer Y q tab y).0
    answer-Keeps q none y k = refl
    answer-Keeps q (some tab) y k = L.reply_lem q tab y k

    -- A reply changes the mapping, and nothing that the invariant reads.
    answered-IsWatched :
        (s : Server State) (y : State) (tab : Option (List ℕ))
        → Keeps s.system y
        → IsWatched s
        → IsWatched (record s { system = y; impl = record s.impl { mb_mapping = tab } })
    answered-IsWatched s y tab k w = record {
      socket = w.socket;
      listens = w.listens;
      socket_watched = w.socket_watched;
      watched-le = w.watched-le;
      watched_open = λ i h. k i ∙ w.watched_open i h;
      fdmax-lt = w.fdmax-lt;
    }

    respond-IsWatched :
        (fd : ℕ) (s : Server State) (r : State × Received)
        → Keeps s.system r.0
        → (w : IsWatched s) → w.socket ≢ fd
        → IsWatched (respond Y fd s r)
    respond-IsWatched fd s (y, query q) k w ne =
        let a = answer Y q s.impl.mb_mapping y in
        answered-IsWatched s a.0 a.1 (λ i. answer-Keeps q s.impl.mb_mapping y i ∙ k i) w
    respond-IsWatched fd s (y, ignored) k w ne = Keeps-IsWatched s y k w
    respond-IsWatched fd s (y, broken) k w ne = drop_client-IsWatched fd s y k w ne

    is_server-socket :
        (fd : ℕ) (s : Server State) (socket : ℕ)
        → s.impl.server_socket ≡ some socket
        → is_server Y fd s.impl ≡ (fd == socket)
    is_server-socket fd s socket e = rw e refl

    -- Whatever the descriptor is and the system does, the invariant is kept.
    pub serve-IsWatched : (fd : ℕ) (s : Server State) → IsWatched s → IsWatched (serve Y fd s)
    unfolding serve
    serve-IsWatched fd s w = elim (Bool-cases (is_server Y fd s.impl)) [
      | inl e ↦
          rw (e, serve) (watch-IsWatched s (Y.accept fd s.system) (L.accept_lem fd s.system) w)
      | inr e ↦
          let apart : (fd == w.socket) ≡ false =
            sym (is_server-socket fd s w.socket w.listens) ∙ e in
          rw (e, serve)
            (respond-IsWatched fd s (Y.receive fd s.system) (L.receive_lem fd s.system) w
              (ground arith))
    ]

  watch-fdmax : (s : Server State) (r : State × Option ℕ) → s.fdmax ≤ (watch Y s r).fdmax
  watch-fdmax s (y, none) = omega arith
  watch-fdmax s (y, some n) = ground arith

  respond-fdmax :
      (fd k : ℕ) (s : Server State) (r : State × Received)
      → fd < k
      → k ≤ s.fdmax
      → k ≤ (respond Y fd s r).fdmax
  respond-fdmax fd k s (y, query q) h l = l
  respond-fdmax fd k s (y, ignored) h l = l
  respond-fdmax fd k s (y, broken) h l = ground arith

  -- What lies above the descriptor served stays below the end of the loop.
  pub serve-fdmax : (fd k : ℕ) (s : Server State) → fd < k → k ≤ s.fdmax → k ≤ (serve Y fd s).fdmax
  unfolding serve
  serve-fdmax fd k s h l = elim (Bool-cases (is_server Y fd s.impl)) [
    | inl e ↦ rw (e, serve) (omega (arith, watch-fdmax s (Y.accept fd s.system), l))
    | inr e ↦ rw (e, serve) (respond-fdmax fd k s (Y.receive fd s.system) h l)
  ]
