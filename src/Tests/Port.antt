-- ===== src/Tests/Port.antt =====
-- The flags of Linux, and a device that accepts its attributes.
use hanport_data_parser.Base.{true, [], ◌∷◌, none, some, ◌≡◌, refl, arith}
use hanport_data_parser.Base.Bytes.{codes}
use hanport_data_parser.Bits.Digit.{digit}
use hanport_data_parser.Serial.Port.{
  Tty, Flags, Device, Port, hp_setup_cflag, hp_setup_lflag, hp_setup_iflag, setup_port, open_port,
}
use hanport_data_parser.Serial.Port.Bits.{
  IsWords, last_said, cflag_said, lflag_said, iflag_said, hp_setup-last_said,
}

abbrev pub linux : Flags
linux = record {
  parenb = 0x100;
  cstopb = 0x40;
  csize = 0x30;
  cs8 = 0x30;
  crtscts = 0x80000000;
  cread = 0x80;
  clocal = 0x800;
  icanon = 2;
  isig = 1;
  ixon = 0x400;
  ixoff = 0x1000;
  ixany = 0x800;
  ignbrk = 1;
  brkint = 2;
  parmrk = 8;
  istrip = 0x20;
  inlcr = 0x40;
  igncr = 0x80;
  icrnl = 0x100;
  vtime = 5;
  vmin = 6;
  b115200 = 0x1002;
}

linux-IsWords : IsWords linux
linux-IsWords = omega arith

-- A terminal with every flag on.
abbrev pub cooked : Tty
cooked = record {
  c_iflag = 0xFFFFFFFF;
  c_oflag = 0;
  c_cflag = 0xFFFFFFFF;
  c_lflag = 0xFFFFFFFF;
  c_cc = 0 ∷ 0 ∷ 0 ∷ 0 ∷ 0 ∷ 0 ∷ 0 ∷ [];
}

all_on :
    ((hp_setup_cflag linux cooked).c_cflag ≡ 0x7FFFFEBF)
    × ((hp_setup_iflag linux cooked).c_iflag ≡ 0xFFFFE214)
unfolding hp_setup_cflag hp_setup_iflag
all_on = (refl, refl)

hp_setup-last_said_example :
    (digit 8 (hp_setup_cflag linux cooked).c_cflag
      ≡ last_said 8 (cflag_said linux) (digit 8 cooked.c_cflag))
    × (digit 8 (hp_setup_lflag linux cooked).c_lflag
        ≡ last_said 8 (lflag_said linux) (digit 8 cooked.c_lflag))
    × (digit 8 (hp_setup_iflag linux cooked).c_iflag
        ≡ last_said 8 (iflag_said linux) (digit 8 cooked.c_iflag))
hp_setup-last_said_example = hp_setup-last_said linux linux-IsWords 8 (omega arith) cooked

-- A device whose state is its attributes.
abbrev pub terminal : Device
terminal = record {
  State = Tty;
  open_path = λ path d. (d, some 5);
  tcflush = λ fd d. d;
  tcgetattr = λ fd d. some d;
  tcsetattr = λ fd t d. (t, true);
  cfsetispeed = λ speed t. t;
  close = λ fd d. d;
}

abbrev closed : Port Tty
closed = record { serial_fd = none; tty = cooked; device = cooked }

opens : (open_port linux terminal (codes "/dev/ttyS0") closed).1 ≡ none
unfolding open_port setup_port
opens = refl
