-- ===== src/Tests/Session.antt =====
-- Two telegrams, one after the other, at the serial port of a program on its default settings.
use hanport_data_parser.Base.{ℕ, true, List, [], ◌∷◌, ◌++◌, length, refl, arith}
use hanport_data_parser.Base.Bytes.{codes}
use hanport_data_parser.Main.{run}
use hanport_data_parser.Main.Session.{
  Batch, IsBatch, IsSession, reads_of, run-IsSession, set_up-Holds,
}
use hanport_data_parser.Main.Telegram.{body_of}
use hanport_data_parser.Serial.{start, chunk, nothing}
use hanport_data_parser.Serial.Frame.{in_body}
use hanport_data_parser.Serial.Scan.{scan}
use hanport_data_parser.Tests.Floats.{whole}
use hanport_data_parser.Tests.Main.{
  library, settings, started, starts, items, items_are, part_pending,
}
use hanport_data_parser.Tests.Mqtt.{failing}
use hanport_data_parser.Validator.Telegram.{telegram}

-- The telegram comes behind a part of another one, with line ends behind it.
abbrev pub first : Batch ℕ
first = record {
  front = chunk (codes "x/q") ∷ nothing ∷ [];
  last = telegram (body_of items) [] ++ codes "\r\n";
  noise = codes "x/q";
  items = items;
  lost = codes "\r\n";
}

abbrev pub second : Batch ℕ
second = record {
  front = [];
  last = telegram (body_of items) [];
  noise = [];
  items = items;
  lost = [];
}

abbrev pub both : List (Batch ℕ)
both = first ∷ second ∷ []

pub first-IsBatch : IsBatch whole first
first-IsBatch = record {
  items-IsItem = items_are;
  unbroken = omega arith;
  bytes = omega arith;
  body = codes "KFM5\r\n1-0:1.7.0(3*kW)\r\n1-0:63.7.0(7*kVAr)\r\n";
  begins = refl;
  no_start = omega arith;
  no_end = omega arith;
  arrived = refl;
  machine = in_body (codes "q");
  quiet = part_pending;
  ends = omega arith;
}

pub second-IsBatch : IsBatch whole second
unfolding scan
second-IsBatch = record {
  items-IsItem = items_are;
  unbroken = omega arith;
  bytes = omega arith;
  body = codes "KFM5\r\n1-0:1.7.0(3*kW)\r\n1-0:63.7.0(7*kVAr)\r\n";
  begins = refl;
  no_start = omega arith;
  no_end = omega arith;
  arrived = refl;
  machine = start;
  quiet = refl;
  ends = omega arith;
}

run-IsSession_example :
    IsSession whole failing both started
      (run whole failing settings.site settings.device_id (length both) (reads_of both) started)
run-IsSession_example =
    run-IsSession whole failing settings.site settings.device_id both started
      (first-IsBatch, (second-IsBatch, tt))
      (set_up-Holds whole failing library true settings started starts)
