-- ===== src/Modbus/Spec/Refined.antt =====
-- The Modbus object keeps its promise, over any sequence of calls.
use hanport_data_parser.Base.{
  ℕ, ◌+◌, ◌^◌, ◌≤◌, Bool, true, false, List, [], ◌∷◌, Option, none, some, ◌≡◌, ◌≢◌, refl, ap, ◌∙◌,
  All, length, arith, if◌then◌else◌,
}
use hanport_data_parser.Modbus.{
  lookup, Impl, fresh, nb_reg, set_holding_registers, get_holding_register,
  snapshot_holding_registers, running, stopped, status,
}
use hanport_data_parser.Modbus.Lifecycle.{
  IsConsistent, Call, start_call, stop_call, set_one, set_many, replied, replaced, perform,
  Reachable, created, called, Reachable-IsConsistent,
}
use hanport_data_parser.Modbus.Spec.{
  File, Served, replace_online, promise, online_of, served, read, status_of,
}
use hanport_data_parser.Modbus.Spec.Calls.{
  IsSized, set_holding_register-write, set_from-write_all, start-promise, stop-promise,
}

-- The registers of a write have addresses below 2 ^ 16, and a client does not change the size of
-- the mapping.
abbrev pub Fits : Call → Type 0
Fits (set_many address values) = address + length values ≤ 2 ^ 16
Fits (replied tab) = length tab ≡ nb_reg
Fits c = Unit

online_of-replaced :
    (tab : List ℕ) (o : Option (List ℕ))
    → length tab ≡ nb_reg
    → (online_of (replaced tab o) ≡ replace_online tab (online_of o)) × IsSized (replaced tab o)
online_of-replaced tab none h = (refl, tt)
online_of-replaced tab (some old) h = (refl, h)

perform-promise :
    (c : Call) (s : Impl)
    → Fits c
    → IsConsistent s
    → IsSized s.mb_mapping
    → (served (perform c s) ≡ promise c (served s)) × IsSized (perform c s).mb_mapping
unfolding set_holding_registers
perform-promise (start_call l) s f c h = start-promise l s c h
perform-promise stop_call s f c h = stop-promise s c
perform-promise (set_one k v) s f c h = set_holding_register-write k v s h
perform-promise (replied tab) s f c h =
    let (same, sized) = online_of-replaced tab s.mb_mapping f in
    (ap (λ (o : Option File). record { file = (served s).file; online = o }) same, sized)
perform-promise (set_many k values) s f c h = set_from-write_all values k 0 k s (omega arith) f h

-- The object and the promise after calls.
abbrev pub perform_all : List Call → Impl → Impl
perform_all [] s = s
perform_all (c ∷ cs) s = perform_all cs (perform c s)

abbrev pub promise_all : List Call → Served → Served
promise_all [] x = x
promise_all (c ∷ cs) x = promise_all cs (promise c x)

perform_all-promise_all :
    (port : ℕ) (cs : List Call) (s : Impl)
    → All Fits cs
    → Reachable port s
    → IsSized s.mb_mapping
    → (served (perform_all cs s) ≡ promise_all cs (served s)) × Reachable port (perform_all cs s)
perform_all-promise_all port [] s f r h = (refl, r)
perform_all-promise_all port (c ∷ cs) s f r h =
    let (same, sized) = perform-promise c s f.0 (Reachable-IsConsistent r) h in
    let (rest, reached) = perform_all-promise_all port cs (perform c s) f.1 (called r c) sized in
    (rest ∙ ap (promise_all cs) same, reached)

-- Before any call: no register is set, and no client is served.
abbrev pub unserved : Served
unserved = record { file = λ a. none; online = none }

status-online : (s : Impl) → IsConsistent s → status s ≡ status_of (online_of s.mb_mapping)
unfolding status
status-online s c =
    by_mapping s.running s.mb_mapping (λ e. (c.when_running e).2) (λ e. (c.when_stopped e).2)
  where
    some_ne : (tab : List ℕ) → some tab ≢ none
    some_ne tab e = cc

    by_mapping :
        (b : Bool) (o : Option (List ℕ))
        → (b ≡ true → o ≢ none)
        → (b ≡ false → o ≡ none)
        → (if b then running else stopped) ≡ status_of (online_of o)
    by_mapping true none h k = absurd (h refl refl)
    by_mapping true (some tab) h k = refl
    by_mapping false none h k = refl
    by_mapping false (some tab) h k = absurd (some_ne tab (k refl))

-- Whatever calls are made in whatever order, as long as no write goes beyond the last address,
-- whatever libmodbus returns, and whatever its replies to clients leave in the mapping: what the
-- program reads, what is in the mapping, which clients read, and what status() says is what the
-- promise says of the same calls and replies. A reply changes nothing but the mapping. The thread
-- is taken not to have ended by an error of `select`, after which nobody serves clients.
pub perform_all-promise :
    (port : ℕ) (cs : List Call) (a : ℕ)
    → All Fits cs
    → let s = perform_all cs (fresh port) in
      let x = promise_all cs unserved in
      (get_holding_register a s ≡ read a x)
      × (lookup a (snapshot_holding_registers s) ≡ x.file a)
      × (online_of s.mb_mapping ≡ x.online)
      × (status s ≡ status_of x.online)
unfolding fresh get_holding_register snapshot_holding_registers lookup
perform_all-promise port cs a f =
    let (same, reached) = perform_all-promise_all port cs (fresh port) f created tt in
    (
      ap (read a) same,
      ap (λ (x : Served). x.file a) same,
      ap (λ (x : Served). x.online) same,
      status-online (perform_all cs (fresh port)) (Reachable-IsConsistent reached)
          ∙ ap (λ (x : Served). status_of x.online) same,
    )
