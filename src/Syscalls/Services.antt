-- ===== src/Syscalls/Services.antt =====
-- The system calls on services and devices (src/kernel/syscalls/syscall_defs.cc). `pid` is
-- `get_current_pid`; the size of the screen, the buses and the mapping of physical memory come as
-- arguments, and so do the names of the services, since nothing depends on their characters. Answers
-- are as they convert to `ruint_t`; `none` is a call that does not return.
use cthulhu_os.Prelude.{
  ℕ, ◌-◌, ◌*◌, Bool, true, false, not, Option, none, some, ◌==◌, if◌then◌else◌, sub64, u64,
}
use mathlib.Core.Option
use cthulhu_os.Rlyeh.{Name}
use cthulhu_os.Process.Daemons.{
  StringTable, Daemons, Registered, register_daemon_service, daemon_registered, is_daemon_process,
}

-- Whether a call is kept from a process: the service belongs to another one.
unfoldable pub is_refused : (tables : StringTable) → ℕ → Name → Daemons tables → Option Bool
unfolding daemon_registered is_daemon_process
is_refused tables pid service d = Option.bind (daemon_registered tables service d) (λ r. second r)
  where
    second : Bool → Option Bool
    second false = some false
    second true = Option.map not (is_daemon_process tables pid service d)

-- A call that answers `denied` where it is refused.
unfoldable pub guarded :
    {A : Type 0} → (tables : StringTable) → ℕ → Name → A → A → Daemons tables → Option A
unfolding is_refused
guarded tables pid service denied answer d =
    Option.map (λ r. if r then denied else answer) (is_refused tables pid service d)

-- `DS_ERROR_NOT_ALLOWED`
abbrev pub not_allowed : ℕ
not_allowed = u64 - 2

module _ (tables : StringTable) where
  unfoldable pub dev_fb_get_height : ℕ → Name → ℕ → Daemons tables → Option ℕ
  unfolding guarded
  dev_fb_get_height pid service_framebuffer height d =
      guarded tables pid service_framebuffer not_allowed height d

  unfoldable pub dev_fb_get_width : ℕ → Name → ℕ → Daemons tables → Option ℕ
  unfolding guarded
  dev_fb_get_width pid service_framebuffer width d =
      guarded tables pid service_framebuffer not_allowed width d

  -- `pcicount` is what `get_pcie_numcount` answers, -1 as `none`.
  unfoldable pub dev_dm_get_pcie_c : ℕ → ℕ → Name → Option ℕ → Daemons tables → Option ℕ
  unfolding guarded
  dev_dm_get_pcie_c einval pid service_ddm pcicount d =
      guarded tables pid service_ddm einval (count pcicount) d
    where
      count : Option ℕ → ℕ
      count none = u64 - 1
      count (some n) = n

  -- `valid` tells whether `validate_address` accepts an array of that many bytes; the flag says that
  -- `get_pcie_info` fills it. A `pci_bus_t` has 16 bytes.
  unfoldable pub dev_dm_get_pcie_info :
      ℕ → ℕ → Name → Option ℕ → (ℕ → Bool) → Daemons tables → Option (ℕ × Bool)
  unfolding guarded
  dev_dm_get_pcie_info einval pid service_ddm pcicount valid d =
      guarded tables pid service_ddm (einval, false) (info pcicount) d
    where
      info : Option ℕ → ℕ × Bool
      info none = (einval, false)
      info (some n) =
          if n == 0
          then (einval, false)
          else if not (valid (16 * n))
          then (einval, false)
          else (0, true)

  -- `ptr` and `stop` are what `map_physical_virtual` returns and where it stops. Behind the answer stand
  -- `c->_0` and `c->_1`, where they are written with `c->present`.
  unfoldable pub dev_selfmap_physical :
      ℕ → ℕ → Name → ℕ → ℕ → ℕ × ℕ → Daemons tables → Option (ℕ × Option (ℕ × ℕ))
  unfolding guarded
  dev_selfmap_physical einval pid service_ddm physaddr size (ptr, stop) d =
      guarded tables pid service_ddm (einval, none)
        (if ptr == 0 then (0, some (stop, sub64 size (sub64 stop physaddr))) else (ptr, none)) d

  -- `valid` is what `validate_string` answers, `none` if it does not return.
  unfoldable pub get_service_status : Option Bool → Name → Daemons tables → Option ℕ
  unfolding daemon_registered
  get_service_status valid name d = Option.bind valid (λ v. status v)
    where
      status : Bool → Option ℕ
      status false = some (u64 - 1)
      status true = Option.map (λ r. if r then 1 else 0) (daemon_registered tables name d)

  unfoldable pub register_service :
      ℕ → Option Bool → Name → Bool → Daemons tables → Option (Registered tables)
  unfolding register_daemon_service
  register_service pid valid name present d = Option.bind valid (λ v. register v)
    where
      register : Bool → Option (Registered tables)
      register false = some (record { answer = u64 - 1; present = present; daemons = d })
      register true = register_daemon_service tables pid name false present d
