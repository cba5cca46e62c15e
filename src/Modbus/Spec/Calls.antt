-- ===== src/Modbus/Spec/Calls.antt =====
-- Each call of the Modbus object keeps its promise.
use mathlib.Core.Path.{fun_ext, ap₂, subst}
use hanport_data_parser.Base.{
  ℕ, zero, suc, ◌+◌, ◌%◌, ◌^◌, ◌≤◌, ◌<◌, Bool, true, false, List, [], ◌∷◌, Option, none, some, ◌≡◌,
  ◌≢◌, refl, sym, ap, ◌∙◌, inl, inr, Bool-cases, length, get_elem?, arith, ◌==◌, ltb, if◌then◌else◌,
}
use hanport_data_parser.Base.Lists.{set, replicate}
use hanport_data_parser.Modbus.{
  Registers, lookup, insert, Impl, nb_reg, Library, listen, zeros, start, stop, write_mapping,
  set_holding_register, set_from,
}
use hanport_data_parser.Modbus.Lifecycle.{IsConsistent, start_call, stop_call, length-zeros}
use hanport_data_parser.Modbus.Store.{lookup-insert, length-set}
use hanport_data_parser.Modbus.Spec.{
  File, Served, put, put_online, write, write_all, blank, starts, go_online, promise, online_of,
  served,
}

-- The mapping has its 1000 registers.
abbrev pub IsSized : Option (List ℕ) → Type 0
IsSized none = Unit
IsSized (some tab) = length tab ≡ nb_reg

get_elem?-set :
    (xs : List ℕ) (i a v : ℕ)
    → i < length xs
    → get_elem? (set xs i v) a ≡ (if i == a then some v else get_elem? xs a)
get_elem?-set [] i a v h = absurd (omega arith)
get_elem?-set (x ∷ xs) zero zero v h = refl
get_elem?-set (x ∷ xs) zero (suc a) v h = ground arith
get_elem?-set (x ∷ xs) (suc i) zero v h = ground arith
get_elem?-set (x ∷ xs) (suc i) (suc a) v h = get_elem?-set xs i a v (omega arith) ∙ ground arith

write_mapping-put_online :
    (k v : ℕ) (o : Option (List ℕ))
    → IsSized o
    → (online_of (write_mapping k v o) ≡ put_online k v (online_of o))
      × IsSized (write_mapping k v o)
unfolding write_mapping
write_mapping-put_online k v none h = (refl, tt)
write_mapping-put_online k v (some tab) h = elim (Bool-cases (ltb k nb_reg)) [
  | inl e ↦
      rw e (ap some (fun_ext (λ a. get_elem?-set tab k a v (ground arith))), length-set tab k v ∙ h)
  | inr e ↦ rw e (refl, h)
]

file-put :
    (k v : ℕ) (m : Registers)
    → ◌≡◌ {A = File} (λ a. lookup a (insert k v m)) (put k v (λ a. lookup a m))
file-put k v m = fun_ext (λ a. lookup-insert a k v m)

serve_path :
    {f g : File} {o p : Option File}
    → f ≡ g
    → o ≡ p
    → ◌≡◌ {A = Served} (record { file = f; online = o }) (record { file = g; online = p })
serve_path e h = ap₂ (λ (f : File) (o : Option File). record { file = f; online = o }) e h

pub set_holding_register-write :
    (k v : ℕ) (s : Impl)
    → IsSized s.mb_mapping
    → (served (set_holding_register k v s) ≡ write k v (served s))
      × IsSized (set_holding_register k v s).mb_mapping
unfolding set_holding_register
set_holding_register-write k v s h =
    let (e, sized) = write_mapping-put_online k v s.mb_mapping h in
    (serve_path (file-put k v s.registers) e, sized)

pub set_from-write_all :
    (values : List ℕ) (address i k : ℕ) (s : Impl)
    → address + i ≡ k
    → k + length values ≤ 2 ^ 16
    → IsSized s.mb_mapping
    → (served (set_from address i values s) ≡ write_all k values (served s))
      × IsSized (set_from address i values s).mb_mapping
unfolding set_from set_holding_register
set_from-write_all [] address i k s e fits h = (refl, h)
set_from-write_all (v ∷ values) address i k s e fits h =
    let key : (address + i) % 2 ^ 16 ≡ k = omega arith in
    let (same, sized) = set_holding_register-write k v s h in
    let (rest, kept) =
      set_from-write_all values address (i + 1) (k + 1) (set_holding_register k v s) (omega arith)
        (omega arith) sized in
    let step : set_from address (i + 1) values (set_holding_register k v s)
        ≡ set_from address i (v ∷ values) s =
      ap₂
        (λ (a b : ℕ). set_from address (i + 1) values (record s {
          registers = insert a v s.registers;
          mb_mapping = write_mapping b v s.mb_mapping;
        }))
        (sym key) (sym e) in
    subst (λ (t : Impl). (served t ≡ write_all k (v ∷ values) (served s)) × IsSized t.mb_mapping)
      step (rest ∙ ap (write_all (k + 1) values) same, kept)

get_elem?-replicate :
    (n a : ℕ) → get_elem? {A = ℕ} (replicate n 0) a ≡ (if ltb a n then some 0 else none)
get_elem?-replicate zero a = ground arith
get_elem?-replicate (suc n) zero = ground arith
get_elem?-replicate (suc n) (suc a) = get_elem?-replicate n a ∙ ground arith

online_of-zeros : (online_of (some zeros) ≡ some blank) × IsSized (some zeros)
unfolding zeros
online_of-zeros = (ap some (fun_ext (λ a. get_elem?-replicate nb_reg a)), length-zeros)

online_kept : (b : Bool) (o : Option (List ℕ)) → o ≢ none → online_of o ≡ go_online b (online_of o)
online_kept b none h = absurd (h refl)
online_kept b (some tab) h = refl

-- A start with these answers, from an object that was stopped.
start_stopped :
    (tcp mapping : Bool) (fd : Option ℕ) (s : Impl)
    → let l : Library = record {
      modbus_new_tcp = tcp;
      modbus_mapping_new = mapping;
      modbus_tcp_listen = fd;
    } in
      let s₀ = record s { running = false; mb_mapping = none } in
      (served (start l s₀).0 ≡ promise (start_call l) (served s₀))
      × IsSized (start l s₀).0.mb_mapping
unfolding start listen
start_stopped false mapping fd s = (refl, tt)
start_stopped true false fd s = (refl, tt)
start_stopped true true none s = (refl, tt)
start_stopped true true (some n) s = (serve_path refl online_of-zeros.0, online_of-zeros.1)

pub start-promise :
    (l : Library) (s : Impl)
    → IsConsistent s
    → IsSized s.mb_mapping
    → (served (start l s).0 ≡ promise (start_call l) (served s)) × IsSized (start l s).0.mb_mapping
unfolding start
start-promise l s c h = elim (Bool-cases s.running) [
  | inl e ↦
      subst
        (λ (t : Impl).
          (served (start l t).0 ≡ promise (start_call l) (served t))
          × IsSized (start l t).0.mb_mapping)
        (ap (λ (b : Bool). record s { running = b }) (sym e))
        (serve_path refl (online_kept (starts l) s.mb_mapping (c.when_running e).2), h)
  | inr e ↦
      let same : record s { running = false; mb_mapping = none } ≡ s =
        ap₂ (λ (b : Bool) (o : Option (List ℕ)). record s { running = b; mb_mapping = o }) (sym e)
          (sym (c.when_stopped e).2) in
      subst
        (λ (t : Impl).
          (served (start l t).0 ≡ promise (start_call l) (served t))
          × IsSized (start l t).0.mb_mapping)
        same (start_stopped l.modbus_new_tcp l.modbus_mapping_new l.modbus_tcp_listen s)
]

pub stop-promise :
    (s : Impl)
    → IsConsistent s
    → (served (stop s) ≡ promise stop_call (served s)) × IsSized (stop s).mb_mapping
unfolding stop
stop-promise s c = elim (Bool-cases s.running) [
  | inl e ↦ rw (e, stop) (refl, tt)
  | inr e ↦
      let mapping = (c.when_stopped e).2 in
      rw (e, stop) (serve_path refl (ap online_of mapping), rw mapping tt)
]
