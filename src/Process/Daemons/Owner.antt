-- ===== src/Process/Daemons/Owner.antt =====
-- Who owns a service after a registration (src/kernel/processes/daemons.c).
use cthulhu_os.Prelude.{
  ℕ, ◌-◌, ◌≡◌, refl, inl, inr, Bool, true, false, Option, none, some, [], ◌∷◌, ◌==◌, if◌then◌else◌,
  u64, Bool-cases, arith,
}
use cthulhu_os.Rlyeh.{Name, name_eq}
use cthulhu_os.Process.Daemons.{
  StringTable, Daemons, Registered, set_service, register_daemon_service, daemon_registered,
  is_daemon_process,
}

name_eq_self : (n : Name) → name_eq n n ≡ true
name_eq_self [] = refl
name_eq_self (c ∷ n) = let same : (c == c) ≡ true = ground arith in rw (same, name_eq_self n) refl

module _ (tables : StringTable) where
  -- What a registration without a right to overwrite comes to.
  pub data Outcome (process : ℕ) (service : Name) (d : Daemons tables)
      : Registered tables → Type 0 where
    owned :
        {r : Registered tables}
        → daemon_registered tables service d ≡ some false
        → r.answer ≡ process
        → r.daemons.locked ≡ false
        → ((other : ℕ) → is_daemon_process tables other service r.daemons ≡ some (process == other))
        → ((n : Name)
            → daemon_registered tables n r.daemons
              ≡ (if name_eq n service then some true else daemon_registered tables n d))
        → Outcome process service d r
    no_memory :
        {r : Registered tables}
        → daemon_registered tables service d ≡ some false
        → tables.set d.dr_table service process ≡ none
        → r.present ≡ true
        → r.daemons ≡ d
        → Outcome process service d r
    taken :
        {r : Registered tables}
        → daemon_registered tables service d ≡ some true
        → r.answer ≡ u64 - 1
        → ((n : Name) → daemon_registered tables n r.daemons ≡ none)
        → ((other : ℕ) (n : Name) → is_daemon_process tables other n r.daemons ≡ none)
        → Outcome process service d r

  -- With the lock free, a registration returns. Either the service was free and belongs to the process
  -- alone afterwards, other services as before; or there was no memory, and nothing but the
  -- continuation changes; or the service was registered already, and then no later question about any
  -- service returns.
  pub register_daemon_service-Outcome :
      (process : ℕ) (service : Name) (present : Bool) (d : Daemons tables)
      → d.locked ≡ false
      → (r : Registered tables) × (register_daemon_service tables process service false present d
          ≡ some r)
        × Outcome process service d r
  unfolding register_daemon_service daemon_registered is_daemon_process set_service
  register_daemon_service-Outcome process service present d free =
      elim (Bool-cases (tables.contains d.dr_table service)) [
        | inl in_table ↦ (
          record { answer = u64 - 1; present = present; daemons = record d { locked = true } },
          rw (free, in_table) refl,
          taken (rw (free, in_table) refl) refl (λ n. refl) (λ other n. refl),
        )
        | inr not_in ↦ (
          set_service tables process service present (tables.set d.dr_table service process) d,
          rw (free, not_in) refl,
          go (rw (free, not_in) refl) (tables.set d.dr_table service process) refl,
        )
      ]
    where
      question :
          {t : tables.Table} (n : Name)
          → tables.contains t n ≡ (if name_eq n service then true else tables.contains d.dr_table n)
          → some (tables.contains t n) ≡ (
              if name_eq n service
              then some true
              else (if d.locked then none else some (tables.contains d.dr_table n)))
      question n e = elim (Bool-cases (name_eq n service)) [
        | inl same ↦ rw (e, same) refl
        | inr other ↦ rw (e, other, free) refl
      ]

      go :
          daemon_registered tables service d ≡ some false
          → (o : Option tables.Table) → tables.set d.dr_table service process ≡ o
          → Outcome process service d (set_service tables process service present o d)
      go was none e = no_memory was e refl (rw (← free) refl)
      go was (some t) e =
          let holds = tables.contains-set d.dr_table t service service process e in
          let owner = tables.get-set d.dr_table t service service process e in
          let same = name_eq_self service in
          let holds' = rw same at holds in
          let owner' = rw same at owner in
          owned was owner' refl (λ other. rw (holds', owner') refl)
            (λ n. question n (tables.contains-set d.dr_table t service n process e))
