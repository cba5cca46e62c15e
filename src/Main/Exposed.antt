-- ===== src/Main/Exposed.antt =====
-- What the clients of the Modbus server see, whatever arrives at the serial port.
use mathlib.Core.Path.{subst}
use native.Mathlib.Nat.{zero-add}
use hanport_data_parser.Base.{
  if◌then◌else◌, ℕ, zero, suc, ◌+◌, ◌≤◌, ◌<◌, Bool, List, [], ◌∷◌, some, ◌≡◌, refl, sym, ap, ◌∙◌,
  inl, inr, ◌⊎◌, arith, get_elem?,
}
use hanport_data_parser.Base.Bytes.{Bytes}
use hanport_data_parser.Base.Int.{ℤ, pos, to_u16}
use hanport_data_parser.Base.Result.{Result-cases}
use hanport_data_parser.Data.{HpData, initial}
use hanport_data_parser.Floats.{Floats}
use hanport_data_parser.Main.{
  Settings, validate, kept, Program, parse, tick, expose, handle, run, begin, set_up,
}
use hanport_data_parser.Modbus.{
  Impl, Library, lookup, fresh, start, make_regs, set_holding_registers, set_from_hp_data,
}
use hanport_data_parser.Modbus.Layout.{make_regs-pair_at}
use hanport_data_parser.Modbus.Lifecycle.{start-fresh-IsSynced}
use hanport_data_parser.Modbus.Store.{IsSynced, set_holding_registers-IsWritten}
use hanport_data_parser.Mqtt.{Client, set_credentials, set_last_will}
use hanport_data_parser.Main.Published.{
  accepts, accepted_rounds, rounds_begun, last_from, last_from-before_them, last_round,
}
use hanport_data_parser.Main.Begun.{set_up-begin}
use hanport_data_parser.Mqtt
use hanport_data_parser.Parser.{Parsed, finished, thrown, parse_message}
use hanport_data_parser.Parser
use hanport_data_parser.Parser.Message.{object, parse_message_keeps}
use hanport_data_parser.Serial.{Reader, Read, ReadOutcome, returned, waiting, hp_read}

pub ReadOutcome-cases :
    (o : ReadOutcome)
    → ((r : Reader) × (o ≡ waiting r))
      ⊎ ((raw : Bytes) × (rest : List Read) × (o ≡ returned raw rest))
ReadOutcome-cases (waiting r) = inl (r, refl)
ReadOutcome-cases (returned raw rest) = inr (raw, rest, refl)

module _ (F : Floats) where
  open F use {Float, of_int}

  -- The registers hold the readings.
  abbrev pub Holds : HpData Float → Impl → Type 0
  Holds d m = (i : ℕ) → i < 54 → lookup i m.registers ≡ get_elem? (make_regs F d) i

  pub set_from_hp_data-Holds :
      (d : HpData Float) (m : Impl)
      → Holds d (set_from_hp_data F d 0 m) × (IsSynced m → IsSynced (set_from_hp_data F d 0 m))
  unfolding set_from_hp_data
  set_from_hp_data-Holds d m =
      let len = (make_regs-pair_at F d).0 in
      let w = set_holding_registers-IsWritten 0 (make_regs F d) m (omega (arith, len)) in
      (
        λ i h.
            ap (λ (k : ℕ). lookup k (set_holding_registers 0 (make_regs F d) m).registers)
              (sym (zero-add i))
            ∙ w.stored i (omega (arith, len)),
        w.synced,
      )

  module _ {S : Type 0} where
    -- The counter is the object's heartbeat. The registers hold the readings of the object with the
    -- heartbeat `seen`, and the mapping has what the registers hold.
    pub record IsExposed (seen : ℕ) (s : Program S Float) : Type 0 where
      pub counted : s.data_obj.heartbeat ≡ pos s.heartbeat
      pub seen-le : seen ≤ s.heartbeat
      pub registers-Holds : Holds (record s.data_obj { heartbeat = pos seen }) s.modbus_server
      pub server-IsSynced : IsSynced s.modbus_server

  module _ (C : Client) where
    open C use {State}

    tick-IsExposed :
        (seen : ℕ) (s : Program State Float) → IsExposed seen s → IsExposed seen (tick F C s)
    unfolding tick
    tick-IsExposed seen s h = record {
      counted = refl;
      seen-le = omega (arith, h.seen-le);
      registers-Holds = h.registers-Holds;
      server-IsSynced = h.server-IsSynced;
    }

    expose-IsExposed :
        (site device_id : Bytes) (s : Program State Float)
        → s.data_obj.heartbeat ≡ pos s.heartbeat
        → IsSynced s.modbus_server
        → IsExposed s.heartbeat (expose F C site device_id s)
    unfolding expose
    expose-IsExposed site device_id s e y =
        let w = set_from_hp_data-Holds s.data_obj s.modbus_server in
        record {
          counted = e;
          seen-le = omega arith;
          registers-Holds = rw (← e) w.0;
          server-IsSynced = w.1 y;
        }

    kept-object : (p : Parsed (HpData Float)) → kept p ≡ object F p
    kept-object (finished d) = refl
    kept-object (thrown x d) = refl

    pub parse_keeps :
        (lines : List Bytes) (d : HpData Float) → (parse F lines d).heartbeat ≡ d.heartbeat
    unfolding parse Parser.construct
    parse_keeps [] d = refl
    parse_keeps (l ∷ ls) d =
        ap (λ (o : HpData Float). o.heartbeat) (kept-object (parse_message F (l ∷ ls) d))
        ∙ (parse_message_keeps F (l ∷ ls) d).1

    handle-IsExposed :
        (site device_id raw : Bytes) (seen : ℕ) (s : Program State Float)
        → IsExposed seen s
        → IsExposed (if accepts raw then s.heartbeat else seen) (handle F C site device_id raw s)
    unfolding handle
    handle-IsExposed site device_id [] seen s h =
        expose-IsExposed site device_id s h.counted h.server-IsSynced
    handle-IsExposed site device_id (b ∷ raw) seen s h = elim (Result-cases (validate (b ∷ raw))) [
      | inr (x, e) ↦ rw (e, handle, accepts) h
      | inl (lines, e) ↦
          rw (e, handle, accepts)
            (expose-IsExposed site device_id (record s { data_obj = parse F lines s.data_obj })
              (parse_keeps lines s.data_obj ∙ h.counted) h.server-IsSynced)
    ]

    handle_counts :
        (site device_id raw : Bytes) (s : Program State Float)
        → (handle F C site device_id raw s).heartbeat ≡ s.heartbeat
    unfolding handle expose
    handle_counts site device_id [] s = refl
    handle_counts site device_id (b ∷ raw) s = elim (Result-cases (validate (b ∷ raw))) [
      | inr (x, e) ↦ rw (e, handle) refl
      | inl (lines, e) ↦ rw (e, handle) refl
    ]

    -- A state after some rounds, where `h` rounds were before them.
    abbrev IsAfter : ℕ → ℕ → List ℕ → ℕ → Program State Float → Type 0
    IsAfter h seen accepted begun s =
        IsExposed (last_from h seen accepted) s × (s.heartbeat ≡ h + begun)

    run_keeps :
        (site device_id : Bytes) (n : ℕ) (reads : List Read) (seen : ℕ) (s : Program State Float)
        → IsExposed seen s
        → IsAfter s.heartbeat seen
            (accepted_rounds n reads)
            (rounds_begun n reads)
            (run F C site device_id n reads s)
    unfolding run tick accepted_rounds rounds_begun
    run_keeps site device_id zero reads seen s h = (h, omega arith)
    run_keeps site device_id (suc n) reads seen s h = elim (ReadOutcome-cases (hp_read reads)) [
      | inl (r, e) ↦ rw (e, run, accepted_rounds, rounds_begun) (tick-IsExposed seen s h, refl)
      | inr (raw, rest, e) ↦
          let t = tick F C s in
          let s₁ = handle F C site device_id raw t in
          let counts : s₁.heartbeat ≡ s.heartbeat + 1 = handle_counts site device_id raw t in
          let seen₁ = if accepts raw then t.heartbeat else seen in
          let later =
            run_keeps site device_id n rest seen₁ s₁
              (handle-IsExposed site device_id raw seen t (tick-IsExposed seen s h)) in
          let last =
            ap (λ (k : ℕ). last_from k seen₁ (accepted_rounds n rest)) counts
            ∙ sym (last_from-before_them s.heartbeat seen (accepts raw) (accepted_rounds n rest)) in
          rw (e, run, accepted_rounds, rounds_begun)
            (
              subst (λ (k : ℕ). IsExposed k (run F C site device_id n rest s₁)) last later.0,
              omega (arith, later.1, counts),
            )
    ]

    begin-IsExposed :
        (l : Library) (p : Mqtt.HpMqttPub State) (port : ℤ) → IsExposed 0 (begin F C l p port)
    unfolding begin initial
    begin-IsExposed l p port =
        let m = (start l (fresh (to_u16 port))).0 in
        let w = set_from_hp_data-Holds (initial (of_int (pos 0))) m in
        record {
          counted = refl;
          seen-le = omega arith;
          registers-Holds = w.0;
          server-IsSynced = w.1 (start-fresh-IsSynced l (to_u16 port));
        }

    set_up-IsExposed :
        (l : Library) (opens : Bool) (c : Settings) (s : Program State Float)
        → set_up F C l opens c ≡ some s
        → IsExposed 0 s × (s.heartbeat ≡ 0)
    unfolding begin
    set_up-IsExposed l opens c s e =
        let (p, port, same, success) = set_up-begin F C l opens c s e in
        subst (λ (x : Program State Float). IsExposed 0 x × (x.heartbeat ≡ 0)) (sym same)
          (begin-IsExposed l p port, refl)

    -- If `main` gets to its loop, then whatever the settings, the answers of the libraries and the
    -- bytes at the port are, after any number of rounds the registers 0 to 53 hold the readings of
    -- the object with the number of the last round whose message was accepted as heartbeat, the
    -- mapping has what the registers hold, and the counter is the number of rounds begun.
    pub run-IsExposed :
        (l : Library) (opens : Bool) (c : Settings) (s : Program State Float) (n : ℕ)
        (reads : List Read)
        → set_up F C l opens c ≡ some s
        → let s' = run F C c.site c.device_id n reads s in
          IsExposed (last_round (accepted_rounds n reads)) s'
          × (s'.heartbeat ≡ rounds_begun n reads)
    run-IsExposed l opens c s n reads e =
        let (exposed, begun) = set_up-IsExposed l opens c s e in
        let later = run_keeps c.site c.device_id n reads 0 s exposed in
        let s' = run F C c.site c.device_id n reads s in
        (
          subst (λ (h : ℕ). IsExposed (last_from h 0 (accepted_rounds n reads)) s') begun later.0,
          omega (arith, later.1, begun),
        )
