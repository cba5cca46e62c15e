-- ===== src/Modbus/Lifecycle.antt =====
-- Starting and stopping the server.
use hanport_data_parser.Base.{
  Bool, zero, ◌↔◌, ℕ, suc, ◌+◌, ◌<◌, true, false, List, [], ◌∷◌, Option, none, some, ◌≡◌, refl, sym,
  ap, ◌∙◌, ◌≢◌, ◌⊎◌, arith, length,
}
use hanport_data_parser.Base.Lists.{replicate}
use hanport_data_parser.Modbus.{
  lookup, Impl, nb_reg, fresh, Library, zeros, listen, start, stop, destroy, write_mapping,
  set_holding_register, set_from, set_holding_registers,
}
use hanport_data_parser.Modbus.Store.{or_zero, nth, IsSynced}

-- A server that runs has a thread, a context, a mapping and a listening socket; one that does not
-- run has none of them.
abbrev pub HasAll : Impl → Type 0
HasAll s = (s.joinable ≡ true) × (s.ctx ≡ true) × (s.mb_mapping ≢ none) × (s.server_socket ≢ none)

abbrev pub HasNone : Impl → Type 0
HasNone s =
    (s.joinable ≡ false) × (s.ctx ≡ false) × (s.mb_mapping ≡ none) × (s.server_socket ≡ none)

pub record IsConsistent (s : Impl) : Type 0 where
  pub when_running : s.running ≡ true → HasAll s
  pub when_stopped : s.running ≡ false → HasNone s

fresh-IsConsistent : (port : ℕ) → IsConsistent (fresh port)
unfolding fresh
fresh-IsConsistent port = record {
  when_running = λ e. cc;
  when_stopped = λ e. (refl, refl, refl, refl);
}

start-IsConsistent : (l : Library) (s : Impl) → IsConsistent s → IsConsistent (start l s).0
unfolding start listen
start-IsConsistent l s c = record {
  when_running = λ e. ground arith;
  when_stopped = λ e. ground arith;
}

-- A start that fails leaves the object as it was; it fails exactly when a call of libmodbus does.
pub start-failed :
    (l : Library) (s : Impl)
    → IsConsistent s
    → s.running ≡ false
    → (l.modbus_new_tcp ≡ false) ⊎ (l.modbus_mapping_new ≡ false) ⊎ (l.modbus_tcp_listen ≡ none)
    → ((start l s).0 ≡ s) × ((start l s).1 ≢ none)
unfolding start listen
start-failed l s c e f = ground (arith, c.when_stopped)

-- A start on a stopped server, with no failing call, gives a running one with a mapping of zeros
-- and the listening socket; the registers of the object are as before.
pub start_succeeds :
    (l : Library) (s : Impl) (fd : ℕ)
    → s.running ≡ false
    → l.modbus_new_tcp ≡ true
    → l.modbus_mapping_new ≡ true
    → l.modbus_tcp_listen ≡ some fd
    → start l s ≡ (
      record s {
        running = true;
        joinable = true;
        ctx = true;
        mb_mapping = some zeros;
        server_socket = some fd;
      },
      none,
    )
unfolding start listen
start_succeeds l s fd e p q r = ground arith

stop-IsConsistent : (s : Impl) → IsConsistent s → IsConsistent (stop s)
unfolding stop
stop-IsConsistent s c = record {
  when_running = λ e. ground arith;
  when_stopped = λ e. ground (arith, c.when_running, c.when_stopped);
}

-- Stopping undoes starting, whatever the calls of libmodbus returned: the object is then the one
-- before, nothing of the server is left, and the destructor, which stops it again, changes nothing.
pub stop-start :
    (l : Library) (s : Impl)
    → IsConsistent s
    → s.running ≡ false
    → (stop (start l s).0 ≡ s) × (destroy (stop (start l s).0) ≡ s)
unfolding stop start listen
stop-start l s c e = ground (arith, c.when_stopped)

pub write_mapping-none :
    (i v : ℕ) (o : Option (List ℕ))
    → (write_mapping i v o ≡ none → o ≡ none) × (o ≡ none → write_mapping i v o ≡ none)
unfolding write_mapping
write_mapping-none i v none = (λ e. refl, λ e. refl)
write_mapping-none i v (some tab) = (λ e. cc, λ e. cc)

set_holding_register-IsConsistent :
    (a v : ℕ) (s : Impl) → IsConsistent s → IsConsistent (set_holding_register a v s)
unfolding set_holding_register
set_holding_register-IsConsistent a v s c = record {
  when_running = λ e. ground (arith, c.when_running, (write_mapping-none a v s.mb_mapping).0);
  when_stopped = λ e. ground (arith, c.when_stopped, (write_mapping-none a v s.mb_mapping).1);
}

set_from-IsConsistent :
    (values : List ℕ) (a i : ℕ) (s : Impl) → IsConsistent s → IsConsistent (set_from a i values s)
unfolding set_from
set_from-IsConsistent [] a i s c = c
set_from-IsConsistent (v ∷ values) a i s c = set_from-IsConsistent values a (i + 1) _ (record {
  when_running = λ e. ground (arith, c.when_running, (write_mapping-none (a + i) v s.mb_mapping).0);
  when_stopped = λ e. ground (arith, c.when_stopped, (write_mapping-none (a + i) v s.mb_mapping).1);
})

-- No write of registers takes the mapping away.
pub set_from_mapped :
    (values : List ℕ) (a i : ℕ) (s : Impl)
    → s.mb_mapping ≢ none
    → (set_from a i values s).mb_mapping ≢ none
unfolding set_from
set_from_mapped [] a i s h = h
set_from_mapped (v ∷ values) a i s h =
    set_from_mapped values a (i + 1) _ (λ e. h ((write_mapping-none (a + i) v s.mb_mapping).0 e))

-- The calls that change the object, with what libmodbus returns to a start; and `modbus_reply` on
-- the server's thread, which may leave any values in the mapping for a client that writes.
pub data Call : Type 0 where
  start_call : Library → Call
  stop_call : Call
  set_one : ℕ → ℕ → Call
  set_many : ℕ → List ℕ → Call
  replied : List ℕ → Call

-- The contents of a mapping, if there is one, are replaced.
abbrev pub replaced : List ℕ → Option (List ℕ) → Option (List ℕ)
replaced tab none = none
replaced tab (some old) = some tab

replaced-none :
    (tab : List ℕ) (o : Option (List ℕ))
    → (replaced tab o ≡ none → o ≡ none) × (o ≡ none → replaced tab o ≡ none)
replaced-none tab none = (λ e. e, λ e. e)
replaced-none tab (some old) = (λ e. absurd cc, λ e. absurd cc)

abbrev pub perform : Call → Impl → Impl
perform (start_call l) s = (start l s).0
perform stop_call s = stop s
perform (set_one a v) s = set_holding_register a v s
perform (set_many a values) s = set_holding_registers a values s
perform (replied tab) s = record s { mb_mapping = replaced tab s.mb_mapping }

-- The objects that calls lead to from a new one.
pub data Reachable (port : ℕ) : Impl → Type 0 where
  created : Reachable port (fresh port)
  called : {s : Impl} → Reachable port s → (c : Call) → Reachable port (perform c s)

perform-IsConsistent : (c : Call) (s : Impl) → IsConsistent s → IsConsistent (perform c s)
unfolding set_holding_registers
perform-IsConsistent (start_call l) s h = start-IsConsistent l s h
perform-IsConsistent stop_call s h = stop-IsConsistent s h
perform-IsConsistent (set_one a v) s h = set_holding_register-IsConsistent a v s h
perform-IsConsistent (set_many a values) s h = set_from-IsConsistent values a 0 s h
perform-IsConsistent (replied tab) s h = record {
  when_running = λ e. ground (arith, h.when_running, (replaced-none tab s.mb_mapping).0);
  when_stopped = λ e. ground (arith, h.when_stopped, (replaced-none tab s.mb_mapping).1);
}

-- Whatever calls and writes of clients were made in whatever order, and whatever libmodbus returned, the object has a
-- thread, a context, a mapping and a listening socket if it runs, and none of them if it does not.
pub Reachable-IsConsistent : {port : ℕ} {s : Impl} → Reachable port s → IsConsistent s
Reachable-IsConsistent {port} created = fresh-IsConsistent port
Reachable-IsConsistent (called {s} r c) = perform-IsConsistent c s (Reachable-IsConsistent r)

nth-replicate : (n i : ℕ) → nth (replicate n 0) i ≡ 0
nth-replicate zero i = refl
nth-replicate (suc n) zero = refl
nth-replicate (suc n) (suc i) = nth-replicate n i

nth-zeros : (i : ℕ) → nth zeros i ≡ 0
unfolding zeros
nth-zeros i = nth-replicate nb_reg i

length-replicate : (n : ℕ) → length (replicate {A = ℕ} n 0) ≡ n
length-replicate zero = refl
length-replicate (suc n) = ap suc (length-replicate n)

pub length-zeros : length zeros ≡ nb_reg
unfolding zeros
length-zeros = length-replicate nb_reg

module _ (l : Library) (s : Impl) (fd : ℕ) (e : s.running ≡ false) (p : l.modbus_new_tcp ≡ true)
    (q : l.modbus_mapping_new ≡ true) (r : l.modbus_tcp_listen ≡ some fd) where
  -- The server starts with the registers that were set before only if there are none but zeros: a
  -- client reads 0 at an address whose register was set to another value before the start.
  pub start-IsSynced_iff :
      IsSynced (start l s).0 ↔ ((a : ℕ) → a < nb_reg → or_zero (lookup a s.registers) ≡ 0)
  start-IsSynced_iff = rw (start_succeeds l s fd e p q r) (
    (λ h. λ a lt. sym (h.1 a lt) ∙ nth-zeros a),
    (λ h. (length-zeros, λ a lt. nth-zeros a ∙ sym (h a lt))),
  )

-- A new server mirrors its registers, which are none, whether its start had success or not.
pub start-fresh-IsSynced : (l : Library) (port : ℕ) → IsSynced (start l (fresh port)).0
unfolding start listen fresh lookup
start-fresh-IsSynced l port = by_answers l.modbus_new_tcp l.modbus_mapping_new l.modbus_tcp_listen
  where
    by_answers :
        (tcp mapping : Bool) (fd : Option ℕ)
        → IsSynced
            (start
              (record {
                modbus_new_tcp = tcp;
                modbus_mapping_new = mapping;
                modbus_tcp_listen = fd;
              })
              (fresh port)).0
    by_answers false mapping fd = tt
    by_answers true false fd = tt
    by_answers true true none = tt
    by_answers true true (some n) = (length-zeros, λ a h. nth-zeros a)
