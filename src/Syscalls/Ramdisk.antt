-- ===== src/Syscalls/Ramdisk.antt =====
-- The system call that opens an entry of the initial ramdisk (src/kernel/syscalls/syscall_defs.cc:
-- `get_initramfs_entry`). `path_valid` and `entry_valid` are the checks of the arguments, `none` where
-- `validate_string` does not return; `pe` is what `get_path` answers, `entries` the answer of
-- `proc_alloc` and `contents` that of `map_physical_virtual`. Names have at most 255 characters.
use cthulhu_os.Prelude.{ℕ, suc, ◌-◌, Bool, true, not, Option, none, some, ◌==◌, if◌then◌else◌, u64}
use mathlib.Core.Option
use cthulhu_os.Rlyeh.{Name, PathElement, dir, file, Elements, nil, cons}

-- `ifs_directory_t` or `ifs_file_t`, with NULL as 0.
pub data RamdiskEntry : Type 0 where
  directory : Name → ℕ → ℕ → RamdiskEntry
  file_entry : Name → ℕ → ℕ → RamdiskEntry

-- The answer, `c->present` afterwards and the entry that was written.
pub record Opened : Type 0 where
  pub answer : ℕ
  pub present : Bool
  pub written : Option RamdiskEntry

unfoldable pub child_count : Elements → ℕ
child_count nil = 0
child_count (cons e es) = suc (child_count es)

-- A directory: only the mark of the continuation depends on the test of `entries`, and the return of
-- `ENOMEM_INTERNAL` follows in any case.
unfoldable pub open_directory : ℕ → Name → ℕ → ℕ → Bool → Opened
open_directory enomem_internal n num entries present = record {
  answer = enomem_internal;
  present = if entries == 0 then true else present;
  written = some (directory n num entries);
}

unfoldable pub open_file : ℕ → Name → ℕ → ℕ → Bool → Opened
open_file enomem_internal n size contents present =
    if contents == 0
    then record { answer = enomem_internal; present = true; written = some (file_entry n size 0) }
    else record { answer = 0; present = present; written = some (file_entry n size contents) }

-- `E_EINVAL` and `E_IFS_INITRAMFS_GONE`, as they convert to `ruint_t`.
unfoldable pub refusal : ℕ → Bool → Opened
refusal code present = record { answer = u64 - code; present = present; written = none }

unfoldable pub open_element : ℕ → ℕ → ℕ → Bool → Option PathElement → Opened
unfolding open_directory open_file refusal child_count
open_element enomem_internal entries contents present none = refusal 2 present
open_element enomem_internal entries contents present (some (dir n es)) =
    open_directory enomem_internal n (child_count es) entries present
open_element enomem_internal entries contents present (some (file n size offset)) =
    open_file enomem_internal n size contents present

unfoldable pub get_initramfs_entry :
    ℕ → Bool → Option Bool → Bool → Option PathElement → ℕ → ℕ → Bool → Option Opened
unfolding open_element refusal
get_initramfs_entry enomem_internal initramfs_exists path_valid entry_valid pe entries contents
      present =
    if not initramfs_exists
    then some (refusal 1 present)
    else Option.map
        (λ v.
          if not v
          then refusal 2 present
          else if not entry_valid
          then refusal 2 present
          else open_element enomem_internal entries contents present pe)
        path_valid
