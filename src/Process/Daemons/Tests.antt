-- ===== src/Process/Daemons/Tests.antt =====
-- A table of services by a list, and a registration.
use cthulhu_os.Prelude.{ℕ, ◌≡◌, refl, Bool, true, false, some, List, [], ◌∷◌, if◌then◌else◌, arith}
use cthulhu_os.Rlyeh.{Name, name_eq}
use cthulhu_os.Process.Daemons.{StringTable, Daemons, Registered, register_daemon_service}
use cthulhu_os.Process.Daemons.Owner.{Outcome, register_daemon_service-Outcome}

abbrev has : List (Name × ℕ) → Name → Bool
has [] n = false
has ((m, v) ∷ rest) n = let later = has rest n in if name_eq n m then true else later

abbrev value_of : List (Name × ℕ) → Name → ℕ
value_of [] n = 0
value_of ((m, v) ∷ rest) n = let later = value_of rest n in if name_eq n m then v else later

some-list : {t t' : List (Name × ℕ)} → some t ≡ some t' → t ≡ t'
some-list e = ground arith

abbrev list_table : StringTable
list_table = record {
  Table = List (Name × ℕ);
  contains = has;
  get = value_of;
  set = λ t n v. some ((n, v) ∷ t);
  contains-set = λ t t' n m v e. rw (← some-list e) refl;
  get-set = λ t t' n m v e. rw (← some-list e) refl;
}

abbrev port : Name
port = 0x70 ∷ []

abbrev no_services : Daemons list_table
no_services = record { dr_table = []; locked = false }

register_daemon_service-Outcome_example :
    (r : Registered list_table) × (register_daemon_service list_table 7 port false false no_services
      ≡ some r)
    × Outcome list_table 7 port no_services r
register_daemon_service-Outcome_example =
    register_daemon_service-Outcome list_table 7 port false no_services refl
