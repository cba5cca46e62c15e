-- ===== src/Main/Session.antt =====
-- Telegram after telegram at the serial port, one for each round of the loop.
use mathlib.Core.Option
use mathlib.Core.Path.{subst}
use hanport_data_parser.Base.{
  Bool, ◌+◌, ◌<◌, List, [], ◌∷◌, ◌++◌, Option, none, some, ◌≡◌, refl, sym, ap, ◌∙◌, All, length,
  append_assoc, if◌then◌else◌, arith,
}
use hanport_data_parser.Base.Bytes.{Bytes, Lacks, IsBytes}
use hanport_data_parser.Base.Int.{ℤ}
use hanport_data_parser.Data.{Field, get, active_energy_import_total}
use hanport_data_parser.Data.Fields.{same}
use hanport_data_parser.Floats.{Floats}
use hanport_data_parser.Main.{Settings, Program, begin, set_up, tick, handle, run}
use hanport_data_parser.Main.Begun.{set_up-begin}
use hanport_data_parser.Main.Exposed.{Holds, set_from_hp_data-Holds}
use hanport_data_parser.Main.Received.{telegram-IsFrame, no_line_end, run-returned}
use hanport_data_parser.Main.Telegram.{body_of, IsRead, handle-telegram}
use hanport_data_parser.Modbus.{Library}
use hanport_data_parser.Mqtt
use hanport_data_parser.Mqtt.{Client}
use hanport_data_parser.Parser.Render.{Item, reading, other, text, IsItem, last_value}
use hanport_data_parser.Serial.{Reader, start, Read, chunk, returned, hp_read}
use hanport_data_parser.Serial.Batch.{hp_read-batch}
use hanport_data_parser.Serial.Resync.{scan-IsFrame}
use hanport_data_parser.Serial.Scan.{Scan, stream, scan, scan-append, pending, onward}
use hanport_data_parser.Validator.Telegram.{telegram}

-- Calls of `read` that bring one telegram: bytes before it, its lines, and bytes behind it.
pub record Batch (Float : Type 0) : Type 0 where
  pub front : List Read
  pub last : Bytes
  pub noise : Bytes
  pub items : List (Item Float)
  pub lost : Bytes

-- The calls of `read` and the lines of all batches.
abbrev pub reads_of : {Float : Type 0} → List (Batch Float) → List Read
reads_of [] = []
reads_of (t ∷ ts) = t.front ++ chunk t.last ∷ reads_of ts

abbrev pub items_of : {Float : Type 0} → List (Batch Float) → List (Item Float)
items_of [] = []
items_of (t ∷ ts) = t.items ++ items_of ts

module _ (F : Floats) where
  open F use {Float}

  -- The batch holds a telegram, the noise completes none, and the telegram ends in the last chunk.
  pub record IsBatch (t : Batch Float) : Type 0 where
    pub items-IsItem : All (IsItem F) t.items
    pub unbroken : All (λ i. Lacks b'\n' (text i)) t.items
    pub bytes : IsBytes (body_of t.items)
    pub body : Bytes
    pub begins : body_of t.items ≡ b'/' ∷ body
    pub no_start : Lacks b'/' body
    pub no_end : Lacks b'!' body
    pub arrived : stream t.front ++ t.last ≡ t.noise ++ telegram (body_of t.items) [] ++ t.lost
    pub machine : Reader
    pub quiet : scan start t.noise ≡ pending machine
    pub ends : length t.lost < length t.last

  -- The value of the later of two texts, where it has one.
  abbrev pub later_or : Option Float → Option Float → Option Float
  later_or (some w) o = some w
  later_or none o = o

  later_or_assoc :
      (a b o : Option Float)
      → (elim (later_or a b) [ some w ↦ some w | none ↦ o ])
        ≡ later_or a (elim b [ some w ↦ some w | none ↦ o ])
  later_or_assoc none b o = refl
  later_or_assoc (some w) b o = refl

  pub last_value-append :
      (f : Field) (is js : List (Item Float))
      → last_value f (is ++ js) ≡ later_or (last_value f js) (last_value f is)
  last_value-append f [] js = by_value (last_value f js)
    where
      by_value : (o : Option Float) → o ≡ later_or o none
      by_value none = refl
      by_value (some w) = refl
  last_value-append f (other line ∷ is) js = last_value-append f is js
  last_value-append f (reading _ _ _ g w ∷ is) js =
      rw (last_value-append f is js)
        (later_or_assoc (last_value f js) (last_value f is) (if same f g then some w else none))

  pub get_or-later_or :
      (a b : Option Float) (v : Float)
      → Option.get_or (later_or a b) v ≡ Option.get_or a (Option.get_or b v)
  get_or-later_or none b v = refl
  get_or-later_or (some w) b v = refl

  pub hp_read-IsBatch :
      (t : Batch Float) (later : List Read)
      → IsBatch t
      → hp_read (t.front ++ chunk t.last ∷ later) ≡ returned (telegram (body_of t.items) []) later
  hp_read-IsBatch t later b =
      let raw = telegram (body_of t.items) [] in
      let frame = telegram-IsFrame (body_of t.items) b.body b.begins b.no_start b.no_end in
      hp_read-batch t.front later t.last raw t.lost
        (ap (scan start) (b.arrived ∙ append_assoc t.noise raw t.lost)
          ∙ scan-append t.noise (raw ++ t.lost) start
          ∙ ap (λ (x : Scan). onward x (raw ++ t.lost)) b.quiet
          ∙ scan-IsFrame raw t.lost b.machine frame)
        b.ends

  module _ (C : Client) where
    open C use {State}

    pub get-tick :
        (f : Field) (s : Program State Float) → get f (tick F C s).data_obj ≡ get f s.data_obj
    unfolding tick
    get-tick active_energy_import_total s = refl
    get-tick _ s = refl

    tick_counts : (s : Program State Float) → (tick F C s).heartbeat ≡ s.heartbeat + 1
    unfolding tick
    tick_counts s = refl

    begin-Holds :
        (l : Library) (p : Mqtt.HpMqttPub State) (port : ℤ)
        → Holds F (begin F C l p port).data_obj (begin F C l p port).modbus_server
    unfolding begin
    begin-Holds l p port = (set_from_hp_data-Holds F _ _).0

    -- The set-up leaves the registers so that they hold the readings.
    pub set_up-Holds :
        (l : Library) (opens : Bool) (c : Settings) (s : Program State Float)
        → set_up F C l opens c ≡ some s
        → Holds F s.data_obj s.modbus_server
    set_up-Holds l opens c s e =
        let (p, port, same_state, success) = set_up-begin F C l opens c s e in
        subst (λ (t : Program State Float). Holds F t.data_obj t.modbus_server) (sym same_state)
          (begin-Holds l p port)

    -- What the telegrams of `ts` make of the state `s`.
    pub record IsSession (ts : List (Batch Float)) (s s' : Program State Float) : Type 0 where
      pub counted : s'.heartbeat ≡ s.heartbeat + length ts
      pub stored :
          (f : Field)
          → get f s'.data_obj ≡ Option.get_or (last_value f (items_of ts)) (get f s.data_obj)
      pub registers-Holds : Holds F s'.data_obj s'.modbus_server

    IsSession-cons :
        (site device_id : Bytes) (t : Batch Float) (ts : List (Batch Float))
        (s s₁ s' : Program State Float)
        → IsRead F C site device_id t.items (tick F C s) s₁
        → IsSession ts s₁ s'
        → IsSession (t ∷ ts) s s'
    IsSession-cons site device_id t ts s s₁ s' read rest = record {
      counted = omega (arith, rest.counted, read.counter, tick_counts s);
      stored = λ f.
          rest.stored f
          ∙ rw (read.stored f, get-tick f s, last_value-append f t.items (items_of ts))
              (sym (
                get_or-later_or (last_value f (items_of ts)) (last_value f t.items)
                  (get f s.data_obj)));
      registers-Holds = rest.registers-Holds;
    }

    -- Each batch of reads brings one telegram behind bytes that complete none,
    -- and its last chunk is the one in which the telegram ends. From a state in which the
    -- registers hold the object's readings, after as many rounds as there are batches the heartbeat
    -- has counted them all, the object holds of each member the last reading in all telegrams
    -- together that the source stores in it (1-0:63.7.0 goes into the export reading), or what it
    -- held before, and the registers again hold the object's readings.
    pub run-IsSession :
        (site device_id : Bytes) (ts : List (Batch Float)) (s : Program State Float)
        → All IsBatch ts
        → Holds F s.data_obj s.modbus_server
        → IsSession ts s (run F C site device_id (length ts) (reads_of ts) s)
    unfolding run
    run-IsSession site device_id [] s h holds = record {
      counted = omega arith;
      stored = λ f. refl;
      registers-Holds = holds;
    }
    run-IsSession site device_id (t ∷ ts) s h holds =
        let raw = telegram (body_of t.items) [] in
        let s₁ = handle F C site device_id raw (tick F C s) in
        let no_mark = subst (Lacks b'!') (sym h.0.begins) (omega arith, h.0.no_end) in
        let read =
          handle-telegram F C site device_id t.items [] (tick F C s) h.0.items-IsItem h.0.unbroken
            h.0.bytes no_mark (no_line_end F C) in
        subst (IsSession (t ∷ ts) s)
          (sym (
            run-returned F C site device_id raw (length ts) (reads_of (t ∷ ts)) (reads_of ts) s
              (hp_read-IsBatch t (reads_of ts) h.0)))
          (IsSession-cons site device_id t ts s s₁ _ read
            (run-IsSession site device_id ts s₁ h.1 read.registers-Holds))
