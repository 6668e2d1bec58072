-- ===== src/Syscalls/Exec.antt =====
-- The start of a program from the initial ramdisk (src/kernel/syscalls/syscall_defs.cc:
-- `create_process_ivfs`). `word` reads a pointer of the caller; `chars` its characters.
pub mod Environment
use cthulhu_os.Prelude.{
  ℕ, zero, suc, ◌+◌, ◌-◌, ◌*◌, ◌%◌, Bool, true, false, not, Option, none, some, List, [], ◌∷◌, ◌==◌,
  if◌then◌else◌, add64, ltb, u32, u64,
}
use mathlib.Core.Option
use cthulhu_os.Memory.Paging.{FramePool, Memory}
use cthulhu_os.Syscalls.Checks.{Checked, validate_address, validate_string}
use cthulhu_os.Rlyeh.{PathElement, dir, file}

-- `(argc+1)*8`, an `int`, as `size_t`.
unfoldable pub argv_size : ℕ → ℕ
argv_size argc = let n = (argc + 1) * 8 % u32 in if ltb n 0x80000000 then n else n + (u64 - u32)

module _ (pool : FramePool) (mirror : Bool) (old : ℕ → ℕ) (cr3 : ℕ) where
  -- Goes on where a check has accepted; otherwise the answer is the refusal.
  unfoldable pub if_accepted :
      Checked pool mirror old cr3
      → (Checked pool mirror old cr3 → Option (Checked pool mirror old cr3))
      → Option (Checked pool mirror old cr3)
  if_accepted k next = if k.valid then next k else some k

  -- `if (!validate_string(...)) return EINVAL`, with `fuel` rounds for the string.
  unfoldable pub check_string :
      ℕ
      → (ℕ → ℕ)
      → ℕ
      → (Checked pool mirror old cr3 → Option (Checked pool mirror old cr3))
      → Checked pool mirror old cr3
      → Option (Checked pool mirror old cr3)
  unfolding if_accepted validate_string
  check_string fuel chars string next k =
      Option.bind (validate_string pool mirror old cr3 fuel chars string k.present k.memory)
        (λ k'. if_accepted k' next)

  -- The loop over the arguments, with `n` of them to go.
  unfoldable pub argv_loop :
      ℕ
      → (ℕ → ℕ)
      → (ℕ → ℕ)
      → ℕ
      → ℕ
      → Checked pool mirror old cr3
      → Option (Checked pool mirror old cr3)
  unfolding check_string
  argv_loop fuel chars word argv zero k = some k
  argv_loop fuel chars word argv (suc n) k =
      check_string fuel chars (word argv) (λ k'. argv_loop fuel chars word (add64 argv 8) n k') k

  -- The loop over the environment, which looks at the first entry in every round: `ix` stays 0.
  unfoldable pub envp_loop :
      ℕ
      → ℕ
      → (ℕ → ℕ)
      → (ℕ → ℕ)
      → ℕ
      → Checked pool mirror old cr3
      → Option (Checked pool mirror old cr3)
  unfolding check_string if_accepted validate_address
  envp_loop zero fuel chars word envp k = none
  envp_loop (suc rounds) fuel chars word envp k =
      if_accepted (validate_address pool mirror old cr3 envp 8 k.present k.memory) (λ a.
        if word envp == 0
        then some a
        else check_string fuel chars (word envp) (λ k'. envp_loop rounds fuel chars word envp k') a)

  -- All that `create_process_ivfs` checks before it looks for the program.
  unfoldable pub check_arguments :
      ℕ
      → ℕ
      → (ℕ → ℕ)
      → (ℕ → ℕ)
      → ℕ
      → ℕ
      → ℕ
      → ℕ
      → Checked pool mirror old cr3
      → Option (Checked pool mirror old cr3)
  unfolding check_string argv_loop envp_loop if_accepted validate_address argv_size
  check_arguments rounds fuel chars word path argc argv envp k =
      check_string fuel chars path
        (λ k1.
          if_accepted
            (validate_address pool mirror old cr3 argv (argv_size argc) k1.present k1.memory)
            (λ k2.
              Option.bind (argv_loop fuel chars word argv argc k2)
                (λ k3. if_accepted k3 (λ k4. envp_loop rounds fuel chars word envp k4))))
        k

  -- How `create_process_ivfs` goes on: not at all, with an error, or to `create_process_base` with the
  -- file's size and place.
  pub data Exec : Type 0 where
    invalid : Checked pool mirror old cr3 → Exec
    no_entry : Exec
    run : ℕ → ℕ → Checked pool mirror old cr3 → Exec

  unfoldable pub program : Option PathElement → Checked pool mirror old cr3 → Exec
  program none k = no_entry
  program (some (dir n es)) k = no_entry
  program (some (file n size offset)) k = run size offset k

  -- `pe` is what `get_path` answers.
  unfoldable pub create_process_ivfs :
      ℕ
      → ℕ
      → (ℕ → ℕ)
      → (ℕ → ℕ)
      → ℕ
      → ℕ
      → ℕ
      → ℕ
      → Option PathElement
      → Bool
      → Memory pool
      → Option Exec
  unfolding check_arguments program
  create_process_ivfs rounds fuel chars word path argc argv envp pe present m =
      Option.map (λ k. if k.valid then program pe k else invalid k)
        (check_arguments rounds fuel chars word path argc argv envp
          (record { valid = true; present = present; memory = m }))
