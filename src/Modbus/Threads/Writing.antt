-- ===== src/Modbus/Threads/Writing.antt =====
-- `set_holding_registers` while the server's thread goes on: what clients can see of a write.
use mathlib.Core.Path.{subst}
use hanport_data_parser.Base.{
  ℕ, ◌+◌, ◌≤◌, ◌^◌, List, [], ◌∷◌, ◌++◌, Option, none, some, ◌≡◌, refl, sym, ap, ◌∙◌, ◌⊎◌, inl, inr,
  Bool-cases, All, leb, length, length-append, append_assoc, arith,
}
use hanport_data_parser.Base.Bytes.{Bytes}
use hanport_data_parser.Modbus.{Impl, set_from, set_holding_registers}
use hanport_data_parser.Modbus.Store.{IsWritten, set_holding_registers-IsWritten}
use hanport_data_parser.Modbus.Server.{
  Selected, failed, timed_out, ready, Received, query, ignored, broken, System, Server, watch,
  answer, respond, is_server, serve,
}
use hanport_data_parser.Modbus.Threads.{
  Worker, at_test, at_select, at_descriptor, finished, Caller, idle, writing, Threads, Step, work,
  go_on, call_stop, call_write, after_select, advance, proceed, may_go, write_one, act, play,
}

-- Values that are written in two parts.
set_from-append :
    (xs ys : List ℕ) (address i : ℕ) (m : Impl)
    → set_from address i (xs ++ ys) m
      ≡ set_from address (i + length xs) ys (set_from address i xs m)
unfolding set_from
set_from-append [] ys address i m = ap (λ (k : ℕ). set_from address k ys m) (omega arith)
set_from-append (x ∷ xs) ys address i m =
    set_from-append xs ys address (i + 1) (write_one address i x m)
    ∙ ap (λ (k : ℕ). set_from address k ys (set_from address (i + 1) xs (write_one address i x m)))
        (omega arith)

set_from-write_one :
    (done : List ℕ) (v address : ℕ) (m : Impl)
    → write_one address (length done) v (set_from address 0 done m)
      ≡ set_from address 0 (done ++ v ∷ []) m
unfolding set_from
set_from-write_one done v address m =
    ap (λ (k : ℕ). write_one address k v (set_from address 0 done m)) (omega arith)
    ∙ sym (set_from-append done (v ∷ []) address 0 m)

-- A step of either thread, and no call.
abbrev pub IsStep : Step → Type 0
IsStep work = Unit
IsStep go_on = Unit
IsStep e = ⊥

module _ (Y : System) where
  open Y use {State}

  -- Clients only read: no reply changes the mapping.
  abbrev pub ReadOnly : Type 0
  ReadOnly = (q : Bytes) (tab : List ℕ) (y : State) → (Y.reply q tab y).1 ≡ tab

  module _ (reads : ReadOnly) where
    answer_keeps : (q : Bytes) (o : Option (List ℕ)) (y : State) → (answer Y q o y).1 ≡ o
    answer_keeps q none y = refl
    answer_keeps q (some tab) y = ap some (reads q tab y)

    respond_keeps :
        (fd : ℕ) (s : Server State) (r : State × Received) → (respond Y fd s r).impl ≡ s.impl
    respond_keeps fd s (y, query q) =
        ap (λ (o : Option (List ℕ)). record s.impl { mb_mapping = o })
          (answer_keeps q s.impl.mb_mapping y)
    respond_keeps fd s (y, ignored) = refl
    respond_keeps fd s (y, broken) = refl

    watch_keeps : (s : Server State) (r : State × Option ℕ) → (watch Y s r).impl ≡ s.impl
    watch_keeps s (y, none) = refl
    watch_keeps s (y, some n) = refl

    serve_keeps : (fd : ℕ) (s : Server State) → (serve Y fd s).impl ≡ s.impl
    unfolding serve
    serve_keeps fd s = elim (Bool-cases (is_server Y fd s.impl)) [
      | inl e ↦ rw (e, serve) (watch_keeps s (Y.accept fd s.system))
      | inr e ↦ rw (e, serve) (respond_keeps fd s (Y.receive fd s.system))
    ]

    after_select_keeps :
        (s : Server State) (r : State × Selected) → (after_select Y s r).1.impl ≡ s.impl
    after_select_keeps s (y, failed) = refl
    after_select_keeps s (y, timed_out) = refl
    after_select_keeps s (y, ready rdset) = refl

    advance_keeps : (w : Worker) (s : Server State) → (advance Y w s).1.impl ≡ s.impl
    unfolding advance
    advance_keeps at_test s = elim (Bool-cases s.impl.running) [
      | inl e ↦ rw (e, advance) refl
      | inr e ↦ rw (e, advance) refl
    ]
    advance_keeps at_select s = after_select_keeps s (Y.select (s.fdmax + 1) s.refset s.system)
    advance_keeps (at_descriptor rdset fd) s = elim (Bool-cases (leb fd s.fdmax)) [
      | inl e ↦ (elim (Bool-cases (rdset fd)) [
        | inl r ↦ rw (e, r, advance) (serve_keeps fd s)
        | inr r ↦ rw (e, r, advance) refl
      ])
      | inr e ↦ rw (e, advance) refl
    ]
    advance_keeps finished s = refl

  -- The first values are written and no other, and the program is in front of the next one, or
  -- back from the method.
  pub record IsPrefix (m : Impl) (address : ℕ) (values : List ℕ) (c : Caller) (s : Server State)
      : Type 0 where
    pub done : List ℕ
    pub rest : List ℕ
    pub parts : values ≡ done ++ rest
    pub written : s.impl ≡ set_from address 0 done m
    pub stands : (c ≡ writing address (length done) rest) ⊎ ((c ≡ idle) × (rest ≡ []))

  module _ (m : Impl) (address : ℕ) (values : List ℕ) where
    abbrev IsProceeded : Server State → Caller → Type 0
    IsProceeded s c = IsPrefix m address values (proceed Y c s).0 (proceed Y c s).1

    proceed-IsPrefix :
        (c : Caller) (s : Server State)
        → IsPrefix m address values c s
        → IsPrefix m address values (proceed Y c s).0 (proceed Y c s).1
    unfolding proceed set_from
    proceed-IsPrefix c s p = by_place p.rest p.parts p.stands
      where
        by_place :
            (rest : List ℕ)
            → values ≡ p.done ++ rest
            → (c ≡ writing address (length p.done) rest) ⊎ ((c ≡ idle) × (rest ≡ []))
            → IsProceeded s c
        by_place [] e (inl q) = subst (IsProceeded s) (sym q) (record {
          done = p.done;
          rest = [];
          parts = e;
          written = p.written;
          stands = inr (refl, refl);
        })
        by_place (v ∷ rest) e (inl q) = subst (IsProceeded s) (sym q) (record {
          done = p.done ++ v ∷ [];
          rest = rest;
          parts = e ∙ sym (append_assoc p.done (v ∷ []) rest);
          written =
              ap (write_one address (length p.done) v) p.written
              ∙ set_from-write_one p.done v address m;
          stands = inl (
              ap (λ (k : ℕ). writing address k rest)
                (omega (arith, length-append p.done (v ∷ []))));
        })
        by_place rest e (inr (q, f)) = subst (IsProceeded s) (sym q) (record {
          done = p.done;
          rest = rest;
          parts = e;
          written = p.written;
          stands = inr (refl, f);
        })

    act-IsPrefix :
        (e : Step) (t : Threads State)
        → ReadOnly
        → IsStep e
        → IsPrefix m address values t.caller t.server
        → IsPrefix m address values (act Y e t).caller (act Y e t).server
    unfolding act
    act-IsPrefix work t reads i p = record {
      done = p.done;
      rest = p.rest;
      parts = p.parts;
      written = advance_keeps reads t.worker t.server ∙ p.written;
      stands = p.stands;
    }
    act-IsPrefix go_on t reads i p = elim (Bool-cases (may_go t.caller t.worker t.server.impl)) [
      | inl g ↦ rw (g, act) (proceed-IsPrefix t.caller t.server p)
      | inr g ↦ rw (g, act) p
    ]
    act-IsPrefix call_stop t reads i p = elim i [ ]
    act-IsPrefix (call_write a vs) t reads i p = elim i [ ]

    play-IsPrefix :
        (es : List Step) (t : Threads State)
        → ReadOnly
        → All IsStep es
        → IsPrefix m address values t.caller t.server
        → IsPrefix m address values (play Y es t).caller (play Y es t).server
    play-IsPrefix [] t reads i p = p
    play-IsPrefix (e ∷ es) t reads i p =
        play-IsPrefix es (act Y e t) reads i.1 (act-IsPrefix e t reads i.0 p)

  -- A write of the program, and steps of both threads in any order from its call on, with clients
  -- that only read. At every point the values that are written are the first ones: what clients
  -- see has them, and at all other addresses what was there before the call. So a client that
  -- reads several registers may see some from before the write and some from after it, but none
  -- that is neither. When the program is back from the method, all values are written.
  pub play-writing :
      (es : List Step) (s : Server State) (w : Worker) (address : ℕ) (values : List ℕ)
      → ReadOnly
      → All IsStep es
      → address + length values ≤ 2 ^ 16
      → let t = play Y es (record { server = s; worker = w; caller = writing address 0 values }) in
        (p : IsPrefix s.impl address values t.caller t.server) × IsWritten address p.done s.impl
          t.server.impl
  unfolding set_holding_registers set_from
  play-writing es s w address values reads i fits =
      let t₀ : Threads State = record {
        server = s;
        worker = w;
        caller = writing address 0 values;
      } in
      let p =
        play-IsPrefix s.impl address values es t₀ reads i
          (record { done = []; rest = values; parts = refl; written = refl; stands = inl refl }) in
      let few : length p.done ≤ length values =
        omega (arith, length-append p.done p.rest, ap length p.parts) in
      (
        p,
        subst (IsWritten address p.done s.impl) (sym p.written)
            (set_holding_registers-IsWritten address p.done s.impl (omega (arith, few, fits))),
      )
