-- ===== src/Serial/Port/Opened.antt =====
-- What `openPort` leaves, whether it throws or not.
use hanport_data_parser.Base.{
  ℕ, Bool, true, false, Option, none, some, ◌≡◌, refl, inl, inr, Option-cases,
}
use hanport_data_parser.Base.Bytes.{Bytes}
use hanport_data_parser.Serial.Port.{
  Tty, Flags, Device, PortError, not_opened, no_attributes, not_configured, Port, configured,
  applied, setup_port, after_open, open_port,
}

module _ (T : Flags) (D : Device) where
  open D use {State}

  -- The device with what `open` returned, after the flush.
  abbrev pub flushed : State × Option ℕ → State
  flushed (d, fd) = D.tcflush fd d

  -- From what `open` left and returned: there is a descriptor, its attributes were read after the
  -- flush, and `tcsetattr` was called once, with what the setup makes of these. It returned
  -- `success`, and the object has the descriptor, the new attributes and the device as it is then.
  pub record IsConfigured (r : State × Option ℕ) (success : Bool) (p : Port State) : Type 0 where
    pub fd : ℕ
    pub old : Tty
    pub opened : r.1 ≡ some fd
    pub read : D.tcgetattr (some fd) (flushed r) ≡ some old
    pub given : D.tcsetattr (some fd) (configured T D old) (flushed r) ≡ (p.device, success)
    pub held : p.tty ≡ configured T D old
    pub descriptor : p.serial_fd ≡ some fd

  -- What `openPort` has done by the exception that it throws, if it throws one.
  abbrev pub Outcome : State × Option ℕ → Option PortError → Port State → Type 0
  Outcome r none p = IsConfigured r true p
  Outcome r (some not_configured) p = IsConfigured r false p
  Outcome r (some no_attributes) p =
      (fd : ℕ) × (r.1 ≡ some fd)
      × (D.tcgetattr (some fd) (flushed r) ≡ none)
      × (p.serial_fd ≡ some fd)
      × (p.device ≡ flushed r)
  Outcome r (some not_opened) p = (r.1 ≡ none) × (p.serial_fd ≡ none) × (p.device ≡ flushed r)

  applied-Outcome :
      (d : State) (n : ℕ) (old : Tty) (p : Port State) (r : State × Bool)
      → D.tcgetattr (some n) (D.tcflush (some n) d) ≡ some old
      → D.tcsetattr (some n) (configured T D old) (D.tcflush (some n) d) ≡ r
      → p.serial_fd ≡ some n
      → let (p', e) = applied T D p (configured T D old) r in Outcome (d, some n) e p'
  applied-Outcome d n old p (d', true) g h e = record {
    fd = n;
    old = old;
    opened = refl;
    read = g;
    given = h;
    held = refl;
    descriptor = e;
  }
  applied-Outcome d n old p (d', false) g h e = record {
    fd = n;
    old = old;
    opened = refl;
    read = g;
    given = h;
    held = refl;
    descriptor = e;
  }

  after_open-Outcome :
      (p : Port State) (r : State × Option ℕ) → let (p', e) = after_open T D p r in Outcome r e p'
  unfolding after_open setup_port
  after_open-Outcome p (d, none) = (refl, refl, refl)
  after_open-Outcome p (d, some n) =
      let q = record p { serial_fd = some n; device = D.tcflush (some n) d } in
      elim (Option-cases (D.tcgetattr (some n) (D.tcflush (some n) d))) [
        | inl g ↦ rw (g, setup_port) (n, refl, g, refl, refl)
        | inr (old, g) ↦
            rw (g, setup_port)
              (applied-Outcome d n old q
                (D.tcsetattr (some n) (configured T D old) (D.tcflush (some n) d)) g refl refl)
      ]

  pub open_port-Outcome :
      (path : Bytes) (p : Port State)
      → let (p', e) = open_port T D path p in Outcome (D.open_path path p.device) e p'
  unfolding open_port
  open_port-Outcome path p = after_open-Outcome p (D.open_path path p.device)
