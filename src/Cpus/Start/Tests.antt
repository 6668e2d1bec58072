-- ===== src/Cpus/Start/Tests.antt =====
-- Two processors in a MADT at 0x1000.
use cthulhu_os.Prelude.{ℕ, ◌≡◌, refl, false, some, [], ◌∷◌, ◌==◌, if◌then◌else◌, arith}
use cthulhu_os.Cpus.Start.{Subtable, MadeCpu, initialize_cpus, initialize_mp}
use cthulhu_os.Cpus.Start.Order.{IsFound, initialize_cpus-IsFound}

abbrev lapic : ℕ → ℕ → Subtable
lapic p i = record { type = 0; length = 8; processor_id = p; id = i; lapic_flags = 1 }

abbrev at : ℕ → Subtable
at a = if a == 0x102C then lapic 0 2 else lapic 1 3

initialize_cpus-IsFound_example :
    IsFound
      (λ n k. 0x100000)
      (0 ∷ 1 ∷ [])
      (initialize_cpus (λ n k. 0x100000) at 2 (some (0x1000, 60)))
initialize_cpus-IsFound_example =
    initialize_cpus-IsFound (λ n k. 0x100000) at 2 0x1000 60 (lapic 0 2 ∷ lapic 1 3 ∷ [])
      (omega arith) (omega arith)
      (refl, omega arith, omega arith, (refl, omega arith, omega arith, refl))
      (((λ e. omega arith), tt), (tt, tt)) (omega arith)

abbrev cpu : ℕ → MadeCpu
cpu i = record {
  processor_id = i;
  apic_id = i;
  started = false;
  insert_id = i;
  syscall_stack = 0;
  stack = 0;
  handler_stack = 0;
  pf_stack = 0;
  df_stack = 0;
  ipi_stack = 0;
}

-- A processor that does not answer gets the startup message twice.
silent_processor :
    (initialize_mp (λ cpus. cpus) 0 (cpu 0 ∷ cpu 1 ∷ [])).1
    ≡ (record { apic = 1; payload = 0x500 })
      ∷ (record { apic = 1; payload = 0x602 })
      ∷ (record { apic = 1; payload = 0x602 })
      ∷ []
unfolding initialize_mp
silent_processor = refl
