-- ===== src/Serial/Port.antt =====
-- The serial port of `hpSerialRead` (src/hpSerialRead.cpp, include/hpSerialRead.hpp): how it is opened,
-- set up and closed. The constants of <termios.h> are the parameter `Flags`, the calls of the
-- operating system the parameter `Device`.
pub mod Bits
pub mod Opened
use Prim.Native.Nat.{bit_or}
use hanport_data_parser.Base.{
  ℕ, ◌-◌, ◌^◌, Bool, true, false, Option, none, some, bit_and, List, ◌≢◌, ◌≡◌, if◌then◌else◌,
}
use hanport_data_parser.Base.Bytes.{Bytes}
use hanport_data_parser.Base.Lists.{set}

-- `struct termios`, but for the members that nothing here names. `tcflag_t` has 32 bits.
pub record Tty : Type 0 where
  pub c_iflag : ℕ
  pub c_oflag : ℕ
  pub c_cflag : ℕ
  pub c_lflag : ℕ
  pub c_cc : List ℕ

pub record Flags : Type 0 where
  pub parenb : ℕ
  pub cstopb : ℕ
  pub csize : ℕ
  pub cs8 : ℕ
  pub crtscts : ℕ
  pub cread : ℕ
  pub clocal : ℕ
  pub icanon : ℕ
  pub isig : ℕ
  pub ixon : ℕ
  pub ixoff : ℕ
  pub ixany : ℕ
  pub ignbrk : ℕ
  pub brkint : ℕ
  pub parmrk : ℕ
  pub istrip : ℕ
  pub inlcr : ℕ
  pub igncr : ℕ
  pub icrnl : ℕ
  pub vtime : ℕ
  pub vmin : ℕ
  pub b115200 : ℕ

-- `~x` of a flag, as a `tcflag_t`.
abbrev pub complement : ℕ → ℕ
complement x = 2 ^ 32 - 1 - x

module _ (T : Flags) where
  open T use {
    parenb, cstopb, csize, cs8, crtscts, cread, clocal, icanon, isig, ixon, ixoff, ixany, ignbrk,
    brkint, parmrk, istrip, inlcr, igncr, icrnl, vtime, vmin,
  }

  unfoldable pub hp_setup_cflag : Tty → Tty
  hp_setup_cflag tty =
      let c₁ = bit_and tty.c_cflag (complement parenb) in
      let c₂ = bit_and c₁ (complement cstopb) in
      let c₃ = bit_and c₂ (complement csize) in
      let c₄ = bit_or c₃ cs8 in
      let c₅ = bit_and c₄ (complement crtscts) in
      record tty { c_cflag = bit_or c₅ (bit_or cread clocal) }

  pub hp_setup_lflag : Tty → Tty
  hp_setup_lflag tty =
      let l₁ = bit_and tty.c_lflag (complement icanon) in
      record tty { c_lflag = bit_and l₁ (complement isig) }

  unfoldable pub hp_setup_iflag : Tty → Tty
  hp_setup_iflag tty =
      let i₁ = bit_and tty.c_iflag (complement (bit_or (bit_or ixon ixoff) ixany)) in
      let raw =
        bit_or (bit_or (bit_or (bit_or (bit_or (bit_or ignbrk brkint) parmrk) istrip) inlcr) igncr)
          icrnl in
      record tty { c_iflag = bit_and i₁ (complement raw) }

  unfoldable hp_setup_cc : Tty → Tty
  hp_setup_cc tty = record tty { c_cc = set (set tty.c_cc vtime 10) vmin 1 }

-- What the program calls of the operating system. A descriptor is `none` for -1; `tcgetattr`
-- gives `none`, and `tcsetattr` false, where it fails.
pub record Device : Type 1 where
  pub State : Type 0
  pub open_path : Bytes → State → State × Option ℕ
  pub tcflush : Option ℕ → State → State
  pub tcgetattr : Option ℕ → State → Option Tty
  pub tcsetattr : Option ℕ → Tty → State → State × Bool
  pub cfsetispeed : ℕ → Tty → Tty
  pub close : Option ℕ → State → State

-- The exceptions, each with its throw site.
pub data PortError : Type 0 where
  not_opened no_attributes not_configured : PortError

pub record Port (S : Type 0) : Type 0 where
  pub serial_fd : Option ℕ
  pub tty : Tty
  pub device : S

module _ (T : Flags) (D : Device) where
  open D use {State}

  -- What `setupPort` makes of the attributes.
  unfoldable pub configured : Tty → Tty
  unfolding hp_setup_cflag hp_setup_lflag hp_setup_iflag hp_setup_cc
  configured tty =
      let tty₁ = hp_setup_cflag T tty in
      let tty₂ = hp_setup_lflag T tty₁ in
      let tty₃ = hp_setup_iflag T tty₂ in
      let tty₄ = hp_setup_cc T tty₃ in D.cfsetispeed T.b115200 tty₄

  abbrev pub applied : Port State → Tty → State × Bool → Port State × Option PortError
  applied p tty (device, true) = (record p { tty = tty; device = device }, none)
  applied p tty (device, false) = (record p { tty = tty; device = device }, some not_configured)

  unfoldable pub setup_port : Port State → Port State × Option PortError
  setup_port p = elim (D.tcgetattr p.serial_fd p.device) [
    | none ↦ (p, some no_attributes)
    | some tty ↦ applied p (configured tty) (D.tcsetattr p.serial_fd (configured tty) p.device)
  ]

  -- What follows the call of `open`: the descriptor is flushed before it is checked.
  pub after_open : Port State → State × Option ℕ → Port State × Option PortError
  unfolding setup_port
  after_open p (device, none) =
      (record p { serial_fd = none; device = D.tcflush none device }, some not_opened)
  after_open p (device, some fd) =
      setup_port (record p { serial_fd = some fd; device = D.tcflush (some fd) device })

  unfoldable pub open_port : Bytes → Port State → Port State × Option PortError
  unfolding after_open
  open_port path p = after_open p (D.open_path path p.device)

  -- The member keeps the number of the descriptor.
  unfoldable close_port : Port State → Port State
  close_port p = record p { device = D.close p.serial_fd p.device }

  -- The destructor.
  unfoldable destroy : Port State → Port State
  unfolding close_port
  destroy p = close_port p
