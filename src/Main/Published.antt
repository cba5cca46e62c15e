-- ===== src/Main/Published.antt =====
-- The messages that reach the broker over the rounds of the loop.
pub mod Rounds
pub mod Telegrams
use hanport_data_parser.Base.{
  ℕ, zero, suc, ◌+◌, Bool, true, false, List, [], ◌∷◌, ◌++◌, Option, none, some, ◌≡◌, refl, sym, ap,
  ◌∙◌, length, map, append-nil, append_assoc, length-append, arith, if◌then◌else◌,
}
use hanport_data_parser.Base.Bytes.{Bytes}
use hanport_data_parser.Base.Result.{ok, err}
use hanport_data_parser.Data.{HpData}
use hanport_data_parser.Floats.{Floats}
use hanport_data_parser.Main.{validate}
use hanport_data_parser.Mqtt.{Message, Client, HpMqttPub}
use hanport_data_parser.Mqtt.Outcome.{selected, attempts, delivered, delivered-append, messages}
use hanport_data_parser.Serial.{Read, returned, waiting, hp_read}

-- The validator does not reject the message of a round.
abbrev pub accepts : Bytes → Bool
accepts [] = true
accepts (b ∷ raw) = elim (validate (b ∷ raw)) [ err e ↦ false | ok message_array ↦ true ]

-- The rounds before a round, if it is the first one and its message is accepted or not.
abbrev pub before_them : Bool → List ℕ → List ℕ
before_them true rounds = 1 ∷ map suc rounds
before_them false rounds = map suc rounds

-- Which of `n` rounds have a message that is accepted.
unfoldable pub accepted_rounds : ℕ → List Read → List ℕ
accepted_rounds zero reads = []
accepted_rounds (suc n) reads = elim (hp_read reads) [
  | waiting r ↦ []
  | returned raw rest ↦ before_them (accepts raw) (accepted_rounds n rest)
]

-- How many of `n` rounds have begun.
unfoldable pub rounds_begun : ℕ → List Read → ℕ
rounds_begun zero reads = 0
rounds_begun (suc n) reads = elim (hp_read reads) [
  | waiting r ↦ 1
  | returned raw rest ↦ rounds_begun n rest + 1
]

-- The last of the rounds, where `h` rounds have been before them, or `last` if there is none.
abbrev pub last_from : ℕ → ℕ → List ℕ → ℕ
last_from h last [] = last
last_from h last (k ∷ ks) = last_from h (h + k) ks

last_from-suc :
    (h last : ℕ) (ks : List ℕ) → last_from h last (map suc ks) ≡ last_from (h + 1) last ks
last_from-suc h last [] = refl
last_from-suc h last (k ∷ ks) =
    last_from-suc h (h + suc k) ks ∙ ap (λ (x : ℕ). last_from (h + 1) x ks) (omega arith)

pub last_from-before_them :
    (h last : ℕ) (b : Bool) (ks : List ℕ)
    → last_from h last (before_them b ks) ≡ last_from (h + 1) (if b then h + 1 else last) ks
last_from-before_them h last true ks = last_from-suc h (h + 1) ks
last_from-before_them h last false ks = last_from-suc h last ks

-- The last of the rounds, or 0.
abbrev pub last_round : List ℕ → ℕ
last_round ks = last_from 0 0 ks

module _ (F : Floats) where
  open F use {Float}

  -- The messages of the objects after these rounds, where `object k` is the one after `k` rounds.
  abbrev pub messages_at : Bytes → (ℕ → HpData Float) → List ℕ → List Message
  messages_at base object [] = []
  messages_at base object (k ∷ ks) = messages F base (object k) ++ messages_at base object ks

  messages_at-suc :
      (base : Bytes) (object object' : ℕ → HpData Float) (ks : List ℕ)
      → ((k : ℕ) → object (suc k) ≡ object' k)
      → messages_at base object' ks ≡ messages_at base object (map suc ks)
  messages_at-suc base object object' [] h = refl
  messages_at-suc base object object' (k ∷ ks) h =
      ap (λ (d : HpData Float). messages F base d ++ messages_at base object' ks) (sym (h k))
      ∙ ap (λ (l : List Message). messages F base (object (suc k)) ++ l)
          (messages_at-suc base object object' ks h)

  module _ (C : Client) (base : Bytes) where
    -- From the publisher `p`, its client's state `c` and the published messages `log` on, these
    -- rounds, and no others, have attempted the messages of the object as it was after them.
    abbrev pub IsPublished :
        (ℕ → HpData Float)
        → List ℕ
        → HpMqttPub (C.State × List Message)
        → C.State
        → List Message
        → HpMqttPub (C.State × List Message)
        → Type 0
    IsPublished object rounds p c log p' = p' ≡ delivered C (messages_at base object rounds) p c log

    pub still :
        (object : ℕ → HpData Float) (p : HpMqttPub (C.State × List Message)) (c : C.State)
        (log : List Message)
        → p.client_ ≡ some (c, log)
        → IsPublished object [] p c log p
    still object p c log e =
        ap (λ (o : Option (C.State × List Message)). record p { client_ = o })
          (e ∙ ap (λ (l : List Message). some (c, l)) (sym (append-nil log)))

    module _ (object object' : ℕ → HpData Float) (same : (k : ℕ) → object (suc k) ≡ object' k) where
      -- A round that does not publish, and those behind it.
      pub IsPublished-skip :
          (rounds : List ℕ) (p : HpMqttPub (C.State × List Message)) (c : C.State)
          (log : List Message) (p' : HpMqttPub (C.State × List Message))
          → IsPublished object' rounds p c log p'
          → IsPublished object (map suc rounds) p c log p'
      IsPublished-skip rounds p c log p' r =
          r
          ∙ ap (λ (ms : List Message). delivered C ms p c log)
              (messages_at-suc base object object' rounds same)

      -- A round that publishes, and those behind it.
      pub IsPublished-cons :
          (rounds : List ℕ) (p : HpMqttPub (C.State × List Message)) (c : C.State)
          (log : List Message) (p' : HpMqttPub (C.State × List Message))
          → let ms = messages F base (object 1) in
            let (c₁, rs) = attempts C ms c in
            IsPublished object' rounds (delivered C ms p c log) c₁ (log ++ selected rs ms) p'
            → IsPublished object (1 ∷ map suc rounds) p c log p'
      IsPublished-cons rounds p c log p' r =
          let ms = messages F base (object 1) in
          r
          ∙ sym (delivered-append C ms (messages_at base object' rounds) p c log)
          ∙ ap (λ (l : List Message). delivered C (ms ++ l) p c log)
              (messages_at-suc base object object' rounds same)
