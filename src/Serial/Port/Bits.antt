-- ===== src/Serial/Port/Bits.antt =====
-- The flags of the serial port, digit by digit.
use Prim.Native.Nat.{bit_or}
use hanport_data_parser.Base.{
  ℕ, ◌^◌, ◌<◌, Bool, true, false, List, [], ◌∷◌, bit_and, ◌≡◌, refl, ap, ◌∙◌, ◌==◌, if◌then◌else◌,
  arith,
}
use hanport_data_parser.Bits.Digit.{
  digit, digit-le, digit-bit_and, digit-bit_or, digit_complement, bit_or-lt,
}
use hanport_data_parser.Serial.Port.{
  Tty, Flags, complement, hp_setup_cflag, hp_setup_lflag, hp_setup_iflag,
}

-- The assignments of a word, the last one first: flags are switched on or off.
abbrev pub Assignments : Type 0
Assignments = List (Bool × ℕ)

-- A digit is what the last assignment to it says, or what it was.
abbrev pub last_said : ℕ → Assignments → ℕ → ℕ
last_said k [] old = old
last_said k ((true, f) ∷ rest) old = if digit k f == 1 then 1 else last_said k rest old
last_said k ((false, f) ∷ rest) old = if digit k f == 1 then 0 else last_said k rest old

digit_off :
    (k f c : ℕ)
    → k < 32
    → f < 2 ^ 32
    → digit k (bit_and c (complement f)) ≡ (if digit k f == 1 then 0 else digit k c)
digit_off k f c h l = ground (
  arith,
  digit-bit_and k c (complement f),
  digit_complement 32 k f l h,
  digit-le k f,
  digit-le k c,
)

digit_on : (k f c : ℕ) → digit k (bit_or c f) ≡ (if digit k f == 1 then 1 else digit k c)
digit_on k f c = ground (arith, digit-bit_or k c f, digit-le k f, digit-le k c)

module _ (k old : ℕ) (h : k < 32) where
  -- The digit of the word `c` is what the assignments say.
  record Says (said : Assignments) (c : ℕ) : Type 0 where
    says : digit k c ≡ last_said k said old

  off :
      (f : ℕ) {c : ℕ} {said : Assignments}
      → f < 2 ^ 32
      → Says said c
      → Says ((false, f) ∷ said) (bit_and c (complement f))
  off f {c} l e = record {
    says = digit_off k f c h l ∙ ap (λ (d : ℕ). if digit k f == 1 then 0 else d) e.says;
  }

  on : (f : ℕ) {c : ℕ} {said : Assignments} → Says said c → Says ((true, f) ∷ said) (bit_or c f)
  on f {c} e = record {
    says = digit_on k f c ∙ ap (λ (d : ℕ). if digit k f == 1 then 1 else d) e.says;
  }

  -- Flags that are joined are switched together.
  on_both :
      (f g : ℕ) {c : ℕ} {said : Assignments}
      → Says said c
      → Says ((true, g) ∷ (true, f) ∷ said) (bit_or c (bit_or f g))
  on_both f g {c} e = record {
    says =
        digit_on k (bit_or f g) c
        ∙ ground (arith, digit_on k g f, e.says, digit-le k f, digit-le k g);
  }

  off_also :
      (c f g : ℕ) {said : Assignments}
      → f < 2 ^ 32
      → g < 2 ^ 32
      → Says said (bit_and c (complement f))
      → Says ((false, g) ∷ said) (bit_and c (complement (bit_or f g)))
  off_also c f g l m e = record {
    says =
        digit_off k (bit_or f g) c h (bit_or-lt 32 f g l m)
        ∙ ground (arith, digit_on k g f, digit_off k f c h l, digit-le k f, digit-le k g)
        ∙ ap (λ (d : ℕ). if digit k g == 1 then 0 else d) e.says;
  }

-- The constants are words of 32 bits.
pub record IsWords (T : Flags) : Type 0 where
  pub parenb-lt : T.parenb < 2 ^ 32
  pub cstopb-lt : T.cstopb < 2 ^ 32
  pub csize-lt : T.csize < 2 ^ 32
  pub crtscts-lt : T.crtscts < 2 ^ 32
  pub icanon-lt : T.icanon < 2 ^ 32
  pub isig-lt : T.isig < 2 ^ 32
  pub ixon-lt : T.ixon < 2 ^ 32
  pub ixoff-lt : T.ixoff < 2 ^ 32
  pub ixany-lt : T.ixany < 2 ^ 32
  pub ignbrk-lt : T.ignbrk < 2 ^ 32
  pub brkint-lt : T.brkint < 2 ^ 32
  pub parmrk-lt : T.parmrk < 2 ^ 32
  pub istrip-lt : T.istrip < 2 ^ 32
  pub inlcr-lt : T.inlcr < 2 ^ 32
  pub igncr-lt : T.igncr < 2 ^ 32
  pub icrnl-lt : T.icrnl < 2 ^ 32

module _ (T : Flags) where
  -- 8 data bits, one stop bit, no parity and no flow control by wires; the receiver is on, and the
  -- lines of a modem are not read.
  abbrev pub cflag_said : Assignments
  cflag_said =
      (true, T.clocal)
      ∷ (true, T.cread)
      ∷ (false, T.crtscts)
      ∷ (true, T.cs8)
      ∷ (false, T.csize)
      ∷ (false, T.cstopb)
      ∷ (false, T.parenb)
      ∷ []

  -- No lines and no signals.
  abbrev pub lflag_said : Assignments
  lflag_said = (false, T.isig) ∷ (false, T.icanon) ∷ []

  -- No flow control by bytes, and no byte is changed.
  abbrev pub iflag_said : Assignments
  iflag_said =
      (false, T.icrnl)
      ∷ (false, T.igncr)
      ∷ (false, T.inlcr)
      ∷ (false, T.istrip)
      ∷ (false, T.parmrk)
      ∷ (false, T.brkint)
      ∷ (false, T.ignbrk)
      ∷ (false, T.ixany)
      ∷ (false, T.ixoff)
      ∷ (false, T.ixon)
      ∷ []

  module _ (W : IsWords T) (k : ℕ) (h : k < 32) (t : Tty) where
    -- A word to which nothing was assigned.
    before : (c : ℕ) → Says k (digit k c) h [] c
    before c = record { says = refl }

    cflag_lem : Says k (digit k t.c_cflag) h cflag_said (hp_setup_cflag T t).c_cflag
    unfolding hp_setup_cflag
    cflag_lem =
        let old = digit k t.c_cflag in
        let size = off k old h T.csize W.csize-lt (
          off k old h T.cstopb W.cstopb-lt (off k old h T.parenb W.parenb-lt (before t.c_cflag))) in
        on_both k old h T.cread T.clocal
          (off k old h T.crtscts W.crtscts-lt (on k old h T.cs8 size))

    lflag_lem : Says k (digit k t.c_lflag) h lflag_said (hp_setup_lflag T t).c_lflag
    unfolding hp_setup_lflag
    lflag_lem =
        let old = digit k t.c_lflag in
        off k old h T.isig W.isig-lt (off k old h T.icanon W.icanon-lt (before t.c_lflag))

    iflag_lem : Says k (digit k t.c_iflag) h iflag_said (hp_setup_iflag T t).c_iflag
    unfolding hp_setup_iflag
    iflag_lem =
        let old = digit k t.c_iflag in
        let ix = bit_or T.ixon T.ixoff in
        let ix-lt : ix < 2 ^ 32 = bit_or-lt 32 T.ixon T.ixoff W.ixon-lt W.ixoff-lt in
        let i₀ = t.c_iflag in
        let flow = off_also k old h i₀ ix T.ixany ix-lt W.ixany-lt (
          off_also k old h i₀ T.ixon T.ixoff W.ixon-lt W.ixoff-lt
            (off k old h T.ixon W.ixon-lt (before t.c_iflag))) in
        let i₁ = bit_and i₀ (complement (bit_or ix T.ixany)) in
        let r₁ = bit_or T.ignbrk T.brkint in
        let l₁ : r₁ < 2 ^ 32 = bit_or-lt 32 T.ignbrk T.brkint W.ignbrk-lt W.brkint-lt in
        let r₂ = bit_or r₁ T.parmrk in
        let l₂ : r₂ < 2 ^ 32 = bit_or-lt 32 r₁ T.parmrk l₁ W.parmrk-lt in
        let r₃ = bit_or r₂ T.istrip in
        let l₃ : r₃ < 2 ^ 32 = bit_or-lt 32 r₂ T.istrip l₂ W.istrip-lt in
        let r₄ = bit_or r₃ T.inlcr in
        let l₄ : r₄ < 2 ^ 32 = bit_or-lt 32 r₃ T.inlcr l₃ W.inlcr-lt in
        let r₅ = bit_or r₄ T.igncr in
        let l₅ : r₅ < 2 ^ 32 = bit_or-lt 32 r₄ T.igncr l₄ W.igncr-lt in
        let e₁ =
          off_also k old h i₁ T.ignbrk T.brkint W.ignbrk-lt W.brkint-lt
            (off k old h T.ignbrk W.ignbrk-lt flow) in
        let e₂ = off_also k old h i₁ r₁ T.parmrk l₁ W.parmrk-lt e₁ in
        let e₃ = off_also k old h i₁ r₂ T.istrip l₂ W.istrip-lt e₂ in
        let e₄ = off_also k old h i₁ r₃ T.inlcr l₃ W.inlcr-lt e₃ in
        let e₅ = off_also k old h i₁ r₄ T.igncr l₄ W.igncr-lt e₄ in
        off_also k old h i₁ r₅ T.icrnl l₅ W.icrnl-lt e₅

    -- Of the 32 flags of each word, every one that the setup names is as its last assignment says,
    -- and every other one is as it was.
    pub hp_setup-last_said :
        (digit k (hp_setup_cflag T t).c_cflag ≡ last_said k cflag_said (digit k t.c_cflag))
        × (digit k (hp_setup_lflag T t).c_lflag ≡ last_said k lflag_said (digit k t.c_lflag))
        × (digit k (hp_setup_iflag T t).c_iflag ≡ last_said k iflag_said (digit k t.c_iflag))
    hp_setup-last_said = (cflag_lem.says, lflag_lem.says, iflag_lem.says)
