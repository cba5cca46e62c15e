-- ===== src/Tests/Begun.antt =====
-- The program before its first telegram: what the client is asked, and a port that stays silent.
use hanport_data_parser.Base.{◌+◌, List, [], ◌∷◌, true, ◌≡◌, ◌≢◌, refl, sym, ◌∙◌}
use hanport_data_parser.Base.Bytes.{Bytes, codes}
use hanport_data_parser.Main.{run}
use hanport_data_parser.Main.Connected.{IsAsked, set_up-IsAsked}
use hanport_data_parser.Main.Silent.{run-silent}
use hanport_data_parser.Serial.{Reader, Read, nothing, chunk, returned, waiting, hp_read}
use hanport_data_parser.Serial.Frame.{in_body}
use hanport_data_parser.Serial.Resync.{HoldsFrame, hp_read-Returns_iff}
use hanport_data_parser.Serial.Scan.{stream}
use hanport_data_parser.Tests.Floats.{whole}
use hanport_data_parser.Tests.Main.{settings, library, started, starts}
use hanport_data_parser.Tests.Mqtt.{failing}

set_up-IsAsked_example : IsAsked failing settings started.mqtt_publisher
set_up-IsAsked_example = set_up-IsAsked whole failing library true settings started starts

-- The beginning of a telegram that never ends.
abbrev unended : List Read
unended = chunk (codes "x/q") ∷ nothing ∷ chunk (codes "(1)\n") ∷ []

waits : hp_read unended ≡ waiting (in_body (codes "q(1)\n"))
unfolding hp_read
waits = refl

unended-silent : ¬ HoldsFrame (stream unended)
unended-silent frame =
    let (m, later, e) = (hp_read-Returns_iff unended).1 frame in
    never m later (in_body (codes "q(1)\n")) (sym waits ∙ e)
  where
    never : (m : Bytes) (later : List Read) (r : Reader) → waiting r ≢ returned m later
    never m later r f = cc

run-silent_example :
    let later = run whole failing settings.site settings.device_id 3 unended started in
    (later.heartbeat ≡ started.heartbeat + 1)
    × (later.modbus_server ≡ started.modbus_server)
    × (later.mqtt_publisher ≡ started.mqtt_publisher)
run-silent_example =
    run-silent whole failing settings.site settings.device_id 2 unended started unended-silent
