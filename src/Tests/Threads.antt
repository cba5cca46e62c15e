-- ===== src/Tests/Threads.antt =====
-- The two threads of a server with one client.
use hanport_data_parser.Base.{
  true, false, List, [], ◌∷◌, none, some, ◌≡◌, ◌≢◌, ◌⊎◌, refl, ◌==◌, arith,
}
use hanport_data_parser.Base.Lists.{replicate}
use hanport_data_parser.Modbus.{fresh, stop}
use hanport_data_parser.Modbus.Lifecycle.{IsConsistent}
use hanport_data_parser.Modbus.Server.{System, Server, start_thread, drop_client, serve}
use hanport_data_parser.Modbus.Threads.{
  at_test, at_descriptor, finished, told, hung_up, stopped, writing, Step, work, go_on, call_stop,
  call_write, act, play, close_socket,
}
use hanport_data_parser.Modbus.Threads.Hangup.{hang_up-serve}
use hanport_data_parser.Modbus.Threads.Writing.{IsPrefix, play-writing}
use hanport_data_parser.Modbus.Store.{IsWritten}
use hanport_data_parser.Modbus.Threads.Safety.{begun, InPhase, play-begun}
use hanport_data_parser.Modbus.Threads.Returns.{play-stop}
use hanport_data_parser.Tests.Server.{Host, one_client, one_client-IsLawful, listening, host, first}

listening-IsConsistent : IsConsistent listening
unfolding fresh
listening-IsConsistent = record {
  when_running = λ e. (refl, refl, λ q. cc, λ q. cc);
  when_stopped = λ e. absurd cc;
}

first-IsConsistent : IsConsistent first.impl
unfolding start_thread
first-IsConsistent = listening-IsConsistent

-- The client connects while a register is written, and the program stops the server.
abbrev events : List Step
events = work ∷ work ∷ call_write 1 (9 ∷ []) ∷ work ∷ go_on ∷ work ∷ go_on ∷ call_stop ∷ go_on ∷ []

play-begun_example :
    let t = play one_client events (begun one_client first) in
    ((t.worker ≡ finished) ⊎ ((t.server.impl.ctx ≡ true) × (t.server.impl.mb_mapping ≢ none)))
    × InPhase one_client t
unfolding start_thread
play-begun_example = play-begun one_client events first first-IsConsistent refl

abbrev waiting : List Step
waiting = replicate 1027 work

abbrev ending : List Step
ending = replicate 5 go_on

abbrev before : List Step
before = work ∷ work ∷ work ∷ []

play-stop_example :
    let t = play one_client before (begun one_client first) in
    let t' = play one_client ending (play one_client waiting (act one_client call_stop t)) in
    (t'.caller ≡ stopped) × (t'.worker ≡ finished) × (t'.server.impl ≡ stop t.server.impl)
unfolding start_thread act
play-stop_example =
    play-stop one_client one_client-IsLawful before waiting ending first first-IsConsistent refl
      (omega arith) refl (omega arith) (omega arith)

-- A `receive` that fails.
abbrev late : Server Host
late = record first { system = record host { calls = 1 } }

hang_up-serve_example :
    (play one_client
      (go_on ∷ work ∷ [])
      (record { server = late; worker = at_descriptor (λ k. k == 3) 3; caller = told })).server
    ≡ drop_client one_client 3
        (one_client.receive 3 (one_client.close 3 late.system)).0
        (close_socket one_client late (some 3))
unfolding start_thread
hang_up-serve_example =
    hang_up-serve one_client late (λ k. k == 3) 3 _ refl refl refl (omega arith) refl

-- From its start on, a server can get to that place: `stop` closes the listening socket while the
-- `for` loop is in front of it, and the thread drops it as if it were a client.
stop_in_loop :
    let t =
      play one_client
        (work ∷ work ∷ work ∷ work ∷ work ∷ call_stop ∷ go_on ∷ work ∷ [])
        (begun one_client late) in
    (t.caller ≡ hung_up) × (t.server.refset 3 ≡ false) × (t.server.fdmax ≡ 2)
unfolding act start_thread serve
stop_in_loop = (refl, refl, refl)

-- A system whose clients only read, and a write of two registers.
abbrev reading : System
reading = record one_client { reply = λ q tab y. (y, tab) }

play-writing_example :
    let t =
      play reading
        (work ∷ go_on ∷ work ∷ work ∷ [])
        (record { server = first; worker = at_test; caller = writing 4 0 (8 ∷ 9 ∷ []) }) in
    (p : IsPrefix reading first.impl 4 (8 ∷ 9 ∷ []) t.caller t.server) × IsWritten 4 p.done
      first.impl t.server.impl
play-writing_example =
    play-writing reading (work ∷ go_on ∷ work ∷ work ∷ []) first at_test 4 (8 ∷ 9 ∷ [])
      (λ q tab y. refl) (tt, (tt, (tt, (tt, tt)))) (omega arith)
