-- ===== src/Process/Daemons.antt =====
-- The services that daemons have registered (src/kernel/processes/daemons.c). The table is the C
-- library's string table, an interface; answers are as they convert to `ruint_t`. The lock is part of
-- the state: `none` is a wait for a lock that its holder has not given back.
pub mod Owner
mod Tests
use cthulhu_os.Prelude.{
  ℕ, ◌-◌, ◌^◌, ◌≡◌, ◌≢◌, refl, Bool, true, false, not, ◌&&◌, Option, none, some, List, [], ◌∷◌,
  ◌==◌, if◌then◌else◌, u64,
}
use cthulhu_os.Rlyeh.{Name, name_eq}

-- `table_contains`, `table_get` and `table_set`, which fails for want of memory.
pub record StringTable : Type 1 where
  pub Table : Type 0
  pub contains : Table → Name → Bool
  pub get : Table → Name → ℕ
  pub set : Table → Name → ℕ → Option Table
  pub contains-set :
      (t t' : Table) (n m : Name) (v : ℕ)
      → set t n v ≡ some t'
      → contains t' m ≡ (if name_eq m n then true else contains t m)
  pub get-set :
      (t t' : Table) (n m : Name) (v : ℕ)
      → set t n v ≡ some t'
      → get t' m ≡ (if name_eq m n then v else get t m)

module _ (tables : StringTable) where
  open tables use {Table, contains, get, set}

  pub record Daemons : Type 0 where
    pub dr_table : Table
    pub locked : Bool

  -- What `register_daemon_service` answers, with `c->present` afterwards.
  pub record Registered : Type 0 where
    pub answer : ℕ
    pub present : Bool
    pub daemons : Daemons

  unfoldable pub set_service : ℕ → Name → Bool → Option Table → Daemons → Registered
  set_service process service present none d = record {
    answer = u64 - 2 ^ 31;
    present = true;
    daemons = record d { locked = false };
  }
  set_service process service present (some t) d = record {
    answer = get t service;
    present = present;
    daemons = record { dr_table = t; locked = false };
  }

  -- Where the service is registered already, the lock is kept.
  unfoldable pub register_daemon_service : ℕ → Name → Bool → Bool → Daemons → Option Registered
  unfolding set_service
  register_daemon_service process service overwrite_old_service_provider present d =
      if d.locked
      then none
      else if contains d.dr_table service && not overwrite_old_service_provider
      then some
          (record { answer = u64 - 1; present = present; daemons = record d { locked = true } })
      else some (set_service process service present (set d.dr_table service process) d)

  unfoldable pub daemon_registered : Name → Daemons → Option Bool
  daemon_registered service d = if d.locked then none else some (contains d.dr_table service)

  unfoldable pub is_daemon_process : ℕ → Name → Daemons → Option Bool
  is_daemon_process process service d =
      if d.locked
      then none
      else if not (contains d.dr_table service)
      then some false
      else some (get d.dr_table service == process)
