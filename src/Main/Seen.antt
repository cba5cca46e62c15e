-- ===== src/Main/Seen.antt =====
-- What a client of the server makes of the registers that it reads from the mapping.
use mathlib.Core.Path.{subst}
use hanport_data_parser.Base.{
  ◌^◌, ℕ, suc, ◌+◌, ◌<◌, List, [], ◌∷◌, Option, none, some, ◌≡◌, refl, sym, ap, ◌∙◌, inl, inr, ◌≢◌,
  Option-cases, get_elem?, arith, Bool, true, false, if◌then◌else◌,
}
use hanport_data_parser.Base.Int.{ℤ, pos, IsInt32, to_u16}
use hanport_data_parser.Data.{initial, HpData, Field, get, active_energy_import_total}
use hanport_data_parser.Floats.{Floats, IsLawful}
use hanport_data_parser.Modbus.{Library, Impl, int_to_regs, float_to_regs, milli, make_regs}
use hanport_data_parser.Main.{Settings, Program, run, begin, set_up}
use hanport_data_parser.Mqtt
use hanport_data_parser.Modbus.{
  fresh, zeros, StartError, start, set_from_hp_data, set_holding_registers,
}
use hanport_data_parser.Modbus.Lifecycle.{start_succeeds, set_from_mapped}
use hanport_data_parser.Main.Bounds.{run-IsWithin, run-IsBounded}
use hanport_data_parser.Main.Begun.{set_up-begin}
use hanport_data_parser.Main.Published.{accepted_rounds, last_round}
use hanport_data_parser.Main.Exposed.{Holds, run-IsExposed}
use hanport_data_parser.Modbus.Layout.{pair_at, register_of, sent_as_float, make_regs-pair_at}
use hanport_data_parser.Modbus.Store.{or_zero, nth, Mirrors}
use hanport_data_parser.Mqtt.{Client}
use hanport_data_parser.Serial.{Read}
use hanport_data_parser.Modbus.Words.{word_of, int_of, int_to_regs-int_of, float_to_regs-word_of}

pair_at-get_elem? :
    (i low high : ℕ) (regs : List ℕ)
    → pair_at i regs ≡ some (low ∷ high ∷ [])
    → (get_elem? regs i ≡ some low) × (get_elem? regs (suc i) ≡ some high)
pair_at-get_elem? i low high regs h = both (get_elem? regs i) (get_elem? regs (suc i)) h
  where
    both :
        (a b : Option ℕ)
        → (elim a [ none ↦ none | some x ↦ (elim b [ none ↦ none | some y ↦ some (x ∷ y ∷ []) ]) ])
          ≡ some (low ∷ high ∷ [])
        → (a ≡ some low) × (b ≡ some high)
    both none b g = absurd cc
    both (some x) none g = absurd cc
    both (some x) (some y) g = (cc, cc)

register_of-lt : (f : Field) → register_of f + 1 < 54
register_of-lt active_energy_import_total = omega arith
register_of-lt _ = omega arith

module _ (F : Floats) where
  open F use {Float}

  -- Two registers stand for a value that is sent as a `float`, or in thousandths as an `int`.
  abbrev pub StandsFor : Bool → Float → ℕ → ℕ → Type 0
  StandsFor true v low high = word_of low high ≡ F.bits v
  StandsFor false v low high = int_of low high ≡ milli F v

  -- A value that is sent in thousandths, as an `int`, has a defined conversion.
  abbrev pub Fits : Bool → Float → Type 0
  Fits true v = Unit
  Fits false v = IsInt32 (milli F v)

  encode-StandsFor :
      (as_float : Bool) (v : Float)
      → IsLawful F
      → Fits as_float v
      → (low : ℕ) × (high : ℕ) × ((if as_float then float_to_regs F v else int_to_regs (milli F v))
          ≡ low ∷ high ∷ [])
        × StandsFor as_float v low high
  unfolding milli
  encode-StandsFor true v L fits = float_to_regs-word_of F L v
  encode-StandsFor false v L fits = int_to_regs-int_of (milli F v) fits

  -- The registers of a server that holds the readings of `d`, in the mapping `tab`.
  module _ (d : HpData Float) (m : Impl) (tab : List ℕ) where
    -- An address of the mapping holds what the registers have there.
    nth-pair :
        (i low high : ℕ)
        → i + 1 < 54
        → Holds F d m
        → Mirrors (some tab) m.registers
        → pair_at i (make_regs F d) ≡ some (low ∷ high ∷ [])
        → (nth tab i ≡ low) × (nth tab (suc i) ≡ high)
    nth-pair i low high h holds y e =
        let (first, second) = pair_at-get_elem? i low high (make_regs F d) e in
        (
          y.1 i (omega (arith, h)) ∙ ap or_zero (holds i (omega (arith, h)) ∙ first),
          y.1 (suc i) (omega (arith, h)) ∙ ap or_zero (holds (suc i) (omega (arith, h)) ∙ second),
        )

    -- A client gets the value of each member, and the heartbeat.
    pub Holds-StandsFor :
        IsLawful F
        → ((f : Field) → Fits (sent_as_float f) (get f d))
        → IsInt32 d.heartbeat
        → Holds F d m
        → Mirrors (some tab) m.registers
        → (int_of (nth tab 0) (nth tab 1) ≡ d.heartbeat)
          × ((f : Field)
              → StandsFor
                  (sent_as_float f)
                  (get f d)
                  (nth tab (register_of f))
                  (nth tab (suc (register_of f))))
    Holds-StandsFor L fits small holds y =
        let layout = make_regs-pair_at F d in
        let (low, high, e, back) = int_to_regs-int_of d.heartbeat small in
        let (at_0, at_1) = nth-pair 0 low high (omega arith) holds y (layout.1 ∙ ap some e) in
        (rw (at_0, at_1) back, by_field)
      where
        by_field :
            (f : Field)
            → StandsFor
                (sent_as_float f)
                (get f d)
                (nth tab (register_of f))
                (nth tab (suc (register_of f)))
        by_field f =
            let (low, high, e, back) = encode-StandsFor (sent_as_float f) (get f d) L (fits f) in
            let (at_0, at_1) =
              nth-pair (register_of f) low high (register_of-lt f) holds y
                ((make_regs-pair_at F d).2 f ∙ ap some e) in
            subst (λ x. StandsFor (sent_as_float f) (get f d) x (nth tab (suc (register_of f))))
              (sym at_0) (subst (λ x. StandsFor (sent_as_float f) (get f d) low x) (sym at_1) back)

  -- The mapping has, in the registers 0 and 1, the number `seen`, and in the two registers of each
  -- member its value in the object `d`.
  abbrev pub IsSeen : ℕ → HpData Float → List ℕ → Type 0
  IsSeen seen d tab =
      (int_of (nth tab 0) (nth tab 1) ≡ pos seen)
      × ((f : Field)
          → StandsFor (sent_as_float f) (get f d) (nth tab (register_of f))
              (nth tab (suc (register_of f))))

  module _ (C : Client) where
    open C use {State}

    get_seen : (f : Field) (d : HpData Float) (h : ℤ) → get f (record d { heartbeat = h }) ≡ get f d
    get_seen active_energy_import_total d h = refl
    get_seen _ d h = refl

    set_from_hp_data_mapped :
        (d : HpData Float) (m : Impl)
        → m.mb_mapping ≢ none
        → (set_from_hp_data F d 0 m).mb_mapping ≢ none
    unfolding set_from_hp_data set_holding_registers
    set_from_hp_data_mapped d m h = set_from_mapped (make_regs F d) 0 0 m h

    mapped_IsSeen :
        (L : IsLawful F) (l : Library) (opens : Bool) (c : Settings) (s : Program State Float)
        (n : ℕ) (reads : List Read) (tab : List ℕ)
        → set_up F C l opens c ≡ some s
        → n < 2 ^ 31
        → ((f : Field)
            → Fits (sent_as_float f) (get f (run F C c.site c.device_id n reads s).data_obj))
        → (run F C c.site c.device_id n reads s).modbus_server.mb_mapping ≡ some tab
        → IsSeen
            (last_round (accepted_rounds n reads))
            (run F C c.site c.device_id n reads s).data_obj
            tab
    mapped_IsSeen L l opens c s n reads tab e h fit mapped =
        let s' = run F C c.site c.device_id n reads s in
        let exposed = (run-IsExposed F C l opens c s n reads e).0 in
        let (counted, fits, bounded) = run-IsBounded F C l opens c s n reads e h in
        let seen = last_round (accepted_rounds n reads) in
        let (heartbeat, members) =
          Holds-StandsFor (record s'.data_obj { heartbeat = pos seen }) s'.modbus_server tab L
            (λ f. subst (Fits (sent_as_float f)) (sym (get_seen f s'.data_obj (pos seen))) (fit f))
            (omega (arith, exposed.seen-le, counted, h)) exposed.registers-Holds
            (subst (λ o. Mirrors o s'.modbus_server.registers) mapped exposed.server-IsSynced) in
        (
          heartbeat,
          λ f.
              subst
                (λ v.
                  StandsFor (sent_as_float f) v (nth tab (register_of f))
                    (nth tab (suc (register_of f))))
                (get_seen f s'.data_obj (pos seen)) (members f),
        )

    -- A start that libmodbus lets succeed leaves a mapping.
    module _ (l : Library) (fd : ℕ) (tcp : l.modbus_new_tcp ≡ true)
        (mapping : l.modbus_mapping_new ≡ true) (socket : l.modbus_tcp_listen ≡ some fd) where
      begin_mapped :
          (p : Mqtt.HpMqttPub State) (port : ℤ)
          → (begin F C l p port).modbus_server.mb_mapping ≢ none
      unfolding begin fresh
      begin_mapped p port = set_from_hp_data_mapped (initial (F.of_int (pos 0))) _ (λ e.
          let made : (start l (fresh (to_u16 port))).0.mb_mapping ≡ some zeros =
            ap (λ (r : Impl × Option StartError). r.0.mb_mapping)
              (start_succeeds l (fresh (to_u16 port)) fd refl tcp mapping socket) in
          cc (e, made))

      run_mapped :
          (opens : Bool) (c : Settings) (s : Program State Float) (n : ℕ) (reads : List Read)
          → set_up F C l opens c ≡ some s
          → (run F C c.site c.device_id n reads s).modbus_server.mb_mapping ≢ none
      run_mapped opens c s n reads e =
          let (p, port, same, success) = set_up-begin F C l opens c s e in
          let now =
            subst (λ (t : Program State Float). t.modbus_server.mb_mapping ≢ none) (sym same)
              (begin_mapped p port) in
          (run-IsWithin F C (λ m. m.mb_mapping ≢ none) set_from_hp_data_mapped c.site c.device_id n
            s.heartbeat reads s (now, omega arith)).0

      -- If the server starts, then after any number of rounds, fewer than 2 ^ 31, as long as no
      -- client writes registers and the values that are sent in thousandths are in the range of `int`,
      -- the mapping that clients read has in the registers 0 and 1 the
      -- number of the last round whose message was accepted, or 0, and in the two registers of
      -- each member the value that the object has now: the bits of a `float`, or thousandths as an
      -- `int`, the low word first.
      pub run-IsSeen :
          (L : IsLawful F) (opens : Bool) (c : Settings) (s : Program State Float) (n : ℕ)
          (reads : List Read)
          → set_up F C l opens c ≡ some s
          → n < 2 ^ 31
          → ((f : Field)
              → Fits (sent_as_float f) (get f (run F C c.site c.device_id n reads s).data_obj))
          → let s' = run F C c.site c.device_id n reads s in
            (tab : List ℕ) × (s'.modbus_server.mb_mapping ≡ some tab)
            × IsSeen (last_round (accepted_rounds n reads)) s'.data_obj tab
      run-IsSeen L opens c s n reads e h fit =
          let s' = run F C c.site c.device_id n reads s in
          elim (Option-cases s'.modbus_server.mb_mapping) [
            | inl none_there ↦ absurd (run_mapped opens c s n reads e none_there)
            | inr (tab, mapped) ↦
                (tab, mapped, mapped_IsSeen L l opens c s n reads tab e h fit mapped)
          ]
