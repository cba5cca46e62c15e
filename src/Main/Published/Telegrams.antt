-- ===== src/Main/Published/Telegrams.antt =====
-- What reaches the broker when the serial port delivers one telegram for each round.
use mathlib.Core.Option
use mathlib.Core.Path.{subst}
use hanport_data_parser.Base.{
  ℕ, zero, suc, Bool, true, List, [], ◌∷◌, ◌++◌, some, ◌≡◌, ◌≢◌, refl, sym, ap, ◌∙◌, map, length,
  All, arith,
}
use hanport_data_parser.Base.Lists.{take}
use hanport_data_parser.Base.Bytes.{Bytes, Lacks}
use hanport_data_parser.Base.Result.{ok}
use hanport_data_parser.Data.{Field, get}
use hanport_data_parser.Floats.{Floats}
use hanport_data_parser.Main.{Settings, Program, validate, tick, handle, run, set_up}
use hanport_data_parser.Main.Published.{accepts, before_them, accepted_rounds, IsPublished}
use hanport_data_parser.Main.Published.Rounds.{object_after, run-IsPublished}
use hanport_data_parser.Main.Received.{no_line_end, run-returned}
use hanport_data_parser.Main.Session.{
  Batch, IsBatch, reads_of, items_of, last_value-append, get_or-later_or, hp_read-IsBatch, get-tick,
}
use hanport_data_parser.Main.Telegram.{body_of, validate-telegram, handle-telegram}
use hanport_data_parser.Modbus.{Library}
use hanport_data_parser.Mqtt.{Message, Client}
use hanport_data_parser.Mqtt.Outcome.{Logged}
use hanport_data_parser.Parser.Render.{last_value}
use hanport_data_parser.Serial.{hp_read}
use hanport_data_parser.Validator.{strip_line_ends}
use hanport_data_parser.Validator.Telegram.{telegram}

-- The rounds 1 to `n`.
abbrev pub all_rounds : ℕ → List ℕ
all_rounds zero = []
all_rounds (suc n) = 1 ∷ map suc (all_rounds n)

accepts-ok :
    (raw : Bytes) (lines : List Bytes) → raw ≢ [] → validate raw ≡ ok lines → accepts raw ≡ true
accepts-ok [] lines ne e = absurd (ne refl)
accepts-ok (b ∷ raw) lines ne e = rw (e, accepts) refl

telegram-ne : (body : Bytes) → telegram body [] ≢ []
telegram-ne [] h = cc
telegram-ne (b ∷ body) h = cc

module _ (F : Floats) where
  open F use {Float}

  no_mark : (t : Batch Float) → IsBatch F t → Lacks b'!' (body_of t.items)
  no_mark t h = subst (Lacks b'!') (sym h.begins) (omega arith, h.no_end)

  accepts-IsBatch : (t : Batch Float) → IsBatch F t → accepts (telegram (body_of t.items) []) ≡ true
  unfolding strip_line_ends
  accepts-IsBatch t h =
      accepts-ok (telegram (body_of t.items) []) _ (telegram-ne (body_of t.items))
        (validate-telegram t.items [] h.bytes (no_mark t h) h.unbroken refl)

  accepted_rounds-reads_of :
      (ts : List (Batch Float))
      → All (IsBatch F) ts
      → accepted_rounds (length ts) (reads_of ts) ≡ all_rounds (length ts)
  unfolding accepted_rounds
  accepted_rounds-reads_of [] h = refl
  accepted_rounds-reads_of (t ∷ ts) h =
      rw (hp_read-IsBatch F t (reads_of ts) h.0, accepted_rounds)
        (ap (λ (b : Bool). before_them b (accepted_rounds (length ts) (reads_of ts)))
            (accepts-IsBatch t h.0)
          ∙ ap (λ (ks : List ℕ). 1 ∷ map suc ks) (accepted_rounds-reads_of ts h.1))

  module _ (C : Client) (site device_id : Bytes) (f : Field) where
    -- A member after some of the telegrams; also where more rounds are asked for than there are.
    get-run :
        (k : ℕ) (ts : List (Batch Float)) (s : Program (C.State × List Message) Float)
        → All (IsBatch F) ts
        → get f (object_after F C site device_id (reads_of ts) s k)
          ≡ Option.get_or (last_value f (items_of (take k ts))) (get f s.data_obj)
    unfolding run hp_read
    get-run zero ts s h = refl
    get-run (suc k) [] s h = get-tick F (Logged C) f s
    get-run (suc k) (t ∷ ts) s h =
        let raw = telegram (body_of t.items) [] in
        let t₁ = tick F (Logged C) s in
        let s₁ = handle F (Logged C) site device_id raw t₁ in
        let read =
          handle-telegram F (Logged C) site device_id t.items [] t₁ h.0.items-IsItem h.0.unbroken
            h.0.bytes (no_mark t h.0) (no_line_end F (Logged C)) in
        ap (λ (u : Program (C.State × List Message) Float). get f u.data_obj)
          (run-returned F (Logged C) site device_id raw k (reads_of (t ∷ ts)) (reads_of ts) s
            (hp_read-IsBatch F t (reads_of ts) h.0))
        ∙ get-run k ts s₁ h.1
        ∙ rw
            (
              read.stored f,
              get-tick F (Logged C) f s,
              last_value-append F f t.items (items_of (take k ts)),
            )
            (sym (
              get_or-later_or F (last_value f (items_of (take k ts))) (last_value f t.items)
                (get f s.data_obj)))

  module _ (C : Client) where
    -- If `main` comes to its loop and each batch of reads brings one telegram, then whatever the
    -- client does, the publisher after as many rounds as there are telegrams is the one at the
    -- set-up after attempts on the messages of the object after the first round, then after the
    -- second, and so on, and on no others; those with success arrived. The object after `k` rounds
    -- holds of each member the last reading in the first `k` telegrams that the source stores in
    -- it, or what it held before; 1-0:63.7.0 is stored in the export reading.
    pub run-telegrams :
        (l : Library) (opens : Bool) (c : Settings) (s : Program (C.State × List Message) Float)
        (ts : List (Batch Float))
        → set_up F (Logged C) l opens c ≡ some s
        → All (IsBatch F) ts
        → let object = object_after F C c.site c.device_id (reads_of ts) s in
          (first : C.State) × (s.mqtt_publisher.client_ ≡ some (first, []))
          × IsPublished F C
              (c.site ++ b'/' ∷ c.device_id)
              object
              (all_rounds (length ts))
              s.mqtt_publisher
              first
              []
              (run F (Logged C) c.site c.device_id (length ts) (reads_of ts) s).mqtt_publisher
          × ((k : ℕ) (f : Field)
              → get f (object k)
                ≡ Option.get_or (last_value f (items_of (take k ts))) (get f s.data_obj))
    run-telegrams l opens c s ts e h =
        let object = object_after F C c.site c.device_id (reads_of ts) s in
        let (first, empty, published) =
          run-IsPublished F C l opens c s (length ts) (reads_of ts) e in
        (
          first,
          empty,
          subst
              (λ (ks : List ℕ).
                IsPublished F C (c.site ++ b'/' ∷ c.device_id) object ks s.mqtt_publisher first []
                  (run F (Logged C) c.site c.device_id (length ts) (reads_of ts) s).mqtt_publisher)
              (accepted_rounds-reads_of ts h) published,
          λ k f. get-run C c.site c.device_id f k ts s h,
        )
