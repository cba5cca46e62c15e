-- ===== src/Modbus/Server/Pass.antt =====
-- One pass of the `for` loop over the descriptors that are ready.
use hanport_data_parser.Base.{
  ℕ, zero, suc, ◌+◌, ◌≤◌, ◌<◌, true, false, List, [], ◌∷◌, some, ◌≡◌, refl, sym, ap, inl, inr, leb,
  if◌then◌else◌, Bool-cases, arith,
}
use hanport_data_parser.Modbus.Server.{FdSet, System, Server, serve, scan_ready, fd_setsize}
use hanport_data_parser.Modbus.Server.Laws.{IsLawful, IsWatched, serve-IsWatched, serve-fdmax}

-- The members of a set from `fd` on, among `n` descriptors, in ascending order.
abbrev pub members : FdSet → ℕ → ℕ → List ℕ
members rdset fd zero = []
members rdset fd (suc n) =
    let rest = members rdset (fd + 1) n in if rdset fd then fd ∷ rest else rest

members-nil :
    (rdset : FdSet) (n fd : ℕ) → ((k : ℕ) → fd ≤ k → rdset k ≡ false) → members rdset fd n ≡ []
members-nil rdset zero fd h = refl
members-nil rdset (suc n) fd h =
    rw (h fd (omega arith)) (members-nil rdset n (fd + 1) (λ k l. h k (omega arith)))

module _ (Y : System) where
  open Y use {State}

  abbrev pub serve_each : List ℕ → Server State → Server State
  serve_each [] s = s
  serve_each (fd ∷ fds) s = serve_each fds (serve Y fd s)

  module _ (L : IsLawful Y) where
    pub serve_each-IsWatched :
        (fds : List ℕ) (s : Server State) → IsWatched Y s → IsWatched Y (serve_each fds s)
    serve_each-IsWatched [] s w = w
    serve_each-IsWatched (fd ∷ fds) s w =
        serve_each-IsWatched fds (serve Y fd s) (serve-IsWatched Y L fd s w)

    -- What is ready from `fd` on lies below the end of the loop.
    abbrev Reaches : FdSet → ℕ → Server State → Type 0
    Reaches rdset fd s = (k : ℕ) → fd ≤ k → rdset k ≡ true → k ≤ s.fdmax

    Reaches-serve :
        (rdset : FdSet) (fd : ℕ) (s : Server State)
        → Reaches rdset fd s
        → Reaches rdset (fd + 1) (serve Y fd s)
    Reaches-serve rdset fd s h k l r = serve-fdmax Y fd k s (omega arith) (h k (omega arith) r)

    none_left :
        (rdset : FdSet) (fd : ℕ) (s : Server State)
        → Reaches rdset fd s
        → leb fd s.fdmax ≡ false
        → (k : ℕ) → fd ≤ k
        → rdset k ≡ false
    none_left rdset fd s h e k l = elim (Bool-cases (rdset k)) [
      | inl r ↦ absurd (ground (arith, h k l r))
      | inr r ↦ r
    ]

    -- With fuel for every descriptor that a set can hold, the loop ends.
    pub scan_ready-serve_each :
        (n fuel fd : ℕ) (rdset : FdSet) (s : Server State)
        → fd + n ≡ fd_setsize
        → n < fuel
        → Reaches rdset fd s
        → IsWatched Y s
        → scan_ready Y fuel rdset fd s ≡ some (serve_each (members rdset fd n) s)
    unfolding scan_ready
    scan_ready-serve_each n zero fd rdset s e l h w = absurd (omega arith)
    scan_ready-serve_each zero (suc fuel) fd rdset s e l h w =
        let over : leb fd s.fdmax ≡ false = ground (arith, w.fdmax-lt) in rw (over, scan_ready) refl
    scan_ready-serve_each (suc n) (suc fuel) fd rdset s e l h w =
        elim (Bool-cases (leb fd s.fdmax)) [
          | inl within ↦
              rw (within, scan_ready)
                (elim (Bool-cases (rdset fd)) [
                  | inl r ↦ rw r (
                      scan_ready-serve_each n fuel (fd + 1) rdset (serve Y fd s) (omega arith)
                        (omega arith) (Reaches-serve rdset fd s h) (serve-IsWatched Y L fd s w))
                  | inr r ↦ rw r (
                      scan_ready-serve_each n fuel (fd + 1) rdset s (omega arith) (omega arith)
                        (λ k lk rk. h k (omega arith) rk) w)
                ])
          | inr over ↦
              rw (over, scan_ready)
                (ap (λ (fds : List ℕ). some (serve_each fds s))
                  (sym (members-nil rdset (suc n) fd (none_left rdset fd s h over))))
        ]
