-- ===== src/Syscalls/Exec/Environment.antt =====
-- A program cannot be started with an environment (src/kernel/syscalls/syscall_defs.cc).
use cthulhu_os.Prelude.{
  ℕ, zero, suc, ◌≡◌, ◌≢◌, refl, Bool, true, false, Option, none, some, ◌==◌, if◌then◌else◌, arith,
}
use mathlib.Core.Option
use cthulhu_os.Memory.Paging.{FramePool, Memory}
use cthulhu_os.Syscalls.Checks.{Checked, validate_address, validate_string}
use cthulhu_os.Rlyeh.{PathElement}
use cthulhu_os.Syscalls.Exec.{
  argv_size, if_accepted, check_string, argv_loop, envp_loop, check_arguments, Exec, invalid,
  no_entry, run, program, create_process_ivfs,
}

module _ (pool : FramePool) (mirror : Bool) (old : ℕ → ℕ) (cr3 : ℕ) where
  -- Not an acceptance: no return, or a refusal.
  abbrev pub Refused : Option (Checked pool mirror old cr3) → Type 0
  Refused none = Unit
  Refused (some k) = k.valid ≡ false

  if_accepted-Refused :
      (k : Checked pool mirror old cr3)
      (next : Checked pool mirror old cr3 → Option (Checked pool mirror old cr3))
      → ((k' : Checked pool mirror old cr3) → Refused (next k'))
      → Refused (if_accepted pool mirror old cr3 k next)
  unfolding if_accepted
  if_accepted-Refused k next h = go k.valid refl
    where
      go : (b : Bool) → k.valid ≡ b → Refused (if b then next k else some k)
      go true e = h k
      go false e = e

  bind-Refused :
      (o : Option (Checked pool mirror old cr3))
      (next : Checked pool mirror old cr3 → Option (Checked pool mirror old cr3))
      → ((k' : Checked pool mirror old cr3) → Refused (next k'))
      → Refused (Option.bind o next)
  unfolding Option.bind
  bind-Refused none next h = tt
  bind-Refused (some k) next h = h k

  check_string-Refused :
      (fuel : ℕ) (chars : ℕ → ℕ) (string : ℕ)
      (next : Checked pool mirror old cr3 → Option (Checked pool mirror old cr3))
      (k : Checked pool mirror old cr3)
      → ((k' : Checked pool mirror old cr3) → Refused (next k'))
      → Refused (check_string pool mirror old cr3 fuel chars string next k)
  unfolding check_string
  check_string-Refused fuel chars string next k h =
      bind-Refused (validate_string pool mirror old cr3 fuel chars string k.present k.memory) _
        (λ k'. if_accepted-Refused k' next h)

  envp_loop-Refused :
      (rounds fuel : ℕ) (chars word : ℕ → ℕ) (envp : ℕ) (k : Checked pool mirror old cr3)
      → word envp ≢ 0
      → Refused (envp_loop pool mirror old cr3 rounds fuel chars word envp k)
  unfolding envp_loop
  envp_loop-Refused zero fuel chars word envp k ne = tt
  envp_loop-Refused (suc rounds) fuel chars word envp k ne =
      if_accepted-Refused (validate_address pool mirror old cr3 envp 8 k.present k.memory) _
        (entry (λ k'. envp_loop-Refused rounds fuel chars word envp k' ne))
    where
      some_entry : (word envp == 0) ≡ false
      some_entry = ground arith

      entry :
          ((k' : Checked pool mirror old cr3)
            → Refused (envp_loop pool mirror old cr3 rounds fuel chars word envp k'))
          → (a : Checked pool mirror old cr3)
          → Refused (
              if word envp == 0
              then some a
              else check_string pool mirror old cr3 fuel chars
                  (word envp)
                  (λ k'. envp_loop pool mirror old cr3 rounds fuel chars word envp k')
                  a)
      entry rest a = rw some_entry (
          check_string-Refused fuel chars (word envp)
            (λ k'. envp_loop pool mirror old cr3 rounds fuel chars word envp k') a rest)

  check_arguments-Refused :
      (rounds fuel : ℕ) (chars word : ℕ → ℕ) (path argc argv envp : ℕ)
      (k : Checked pool mirror old cr3)
      → word envp ≢ 0
      → Refused (check_arguments pool mirror old cr3 rounds fuel chars word path argc argv envp k)
  unfolding check_arguments
  check_arguments-Refused rounds fuel chars word path argc argv envp k ne =
      check_string-Refused fuel chars path _ k (λ k1.
        if_accepted-Refused
          (validate_address pool mirror old cr3 argv (argv_size argc) k1.present k1.memory) _
          (λ k2. bind-Refused (argv_loop pool mirror old cr3 fuel chars word argv argc k2) _ (λ k3.
            if_accepted-Refused k3 _ (λ k4. envp_loop-Refused rounds fuel chars word envp k4 ne))))

  -- No answer within the rounds, or the refusal of an argument.
  abbrev pub Stopped : Option (Exec pool mirror old cr3) → Type 0
  Stopped none = Unit
  Stopped (some (invalid k)) = Unit
  Stopped (some no_entry) = ⊥
  Stopped (some (run size offset k)) = ⊥

  -- `create_process_ivfs` with an environment that is not empty never gets to the program, whatever the
  -- memory holds and however many rounds it runs: it refuses an argument or does not return.
  pub create_process_ivfs-Stopped :
      (rounds fuel : ℕ) (chars word : ℕ → ℕ) (path argc argv envp : ℕ) (pe : Option PathElement)
      (present : Bool) (m : Memory pool)
      → word envp ≢ 0
      → Stopped (
          create_process_ivfs pool mirror old cr3 rounds fuel chars word path argc argv envp pe
            present m)
  unfolding create_process_ivfs
  create_process_ivfs-Stopped rounds fuel chars word path argc argv envp pe present m ne =
      let start : Checked pool mirror old cr3 = record {
        valid = true;
        present = present;
        memory = m;
      } in
      go (check_arguments pool mirror old cr3 rounds fuel chars word path argc argv envp start)
        (check_arguments-Refused rounds fuel chars word path argc argv envp start ne)
    where
      go :
          (o : Option (Checked pool mirror old cr3))
          → Refused o
          → Stopped (
              Option.map
                (λ (k : Checked pool mirror old cr3).
                  if k.valid then program pool mirror old cr3 pe k else invalid k)
                o)
      go none h = tt
      go (some k) h = rw h tt
