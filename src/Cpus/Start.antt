-- ===== src/Cpus/Start.antt =====
-- The processors (src/kernel/cpus/cpu_mgmt.c): their structures, made from the MADT, and the
-- messages that start them.
pub mod Order
mod Tests
use cthulhu_os.Prelude.{
  ℕ, zero, suc, ◌+◌, ◌-◌, ◌*◌, ◌/◌, ◌%◌, ◌^◌, Bool, true, false, not, ◌&&◌, ◌||◌, Option, none,
  some, List, [], ◌∷◌, ◌++◌, ◌==◌, if◌then◌else◌, add64, sub64, length,
}
use cthulhu_os.Memory.Frames.{align}
use mathlib.Core.Option

-- A subtable of the MADT: `ACPI_SUBTABLE_HEADER`, and the rest of `MADT_LOCAL_APIC` if it is one.
pub record Subtable : Type 0 where
  pub type : ℕ
  pub length : ℕ
  pub processor_id : ℕ
  pub id : ℕ
  pub lapic_flags : ℕ

-- `cpu_t` as `make_cpu` leaves it, without what is 0 or an empty queue.
pub record MadeCpu : Type 0 where
  pub processor_id : ℕ
  pub apic_id : ℕ
  pub started : Bool
  pub insert_id : ℕ
  pub syscall_stack : ℕ
  pub stack : ℕ
  pub handler_stack : ℕ
  pub pf_stack : ℕ
  pub df_stack : ℕ
  pub ipi_stack : ℕ

-- The top of a stack of a block: `PAGE_ALIGN`.
unfoldable pub stack_top : ℕ → ℕ → ℕ
unfolding align
stack_top size block = align (add64 block size)

-- What `make_cpu` fills in; `blocks k` is the answer of the call `k` of `malloc`.
unfoldable pub filled_cpu : Option Subtable → ℕ → (ℕ → ℕ) → MadeCpu
unfolding stack_top
filled_cpu apic insertid blocks = record {
  processor_id = elim apic [ none ↦ 0 | some a ↦ a.processor_id ];
  apic_id = elim apic [ none ↦ 0 | some a ↦ a.id ];
  started = elim apic [ none ↦ true | some a ↦ false ];
  insert_id = insertid;
  syscall_stack = stack_top 0x10000 (blocks 1);
  stack = stack_top 0x2000 (blocks 2);
  handler_stack = stack_top 0x8000 (blocks 3);
  pf_stack = stack_top 0x3000 (blocks 4);
  df_stack = stack_top 0x2000 (blocks 5);
  ipi_stack = stack_top 0x3000 (blocks 6);
}

-- `none` is `error`; the stacks' blocks are not tested.
unfoldable pub make_cpu : Option Subtable → ℕ → (ℕ → ℕ) → Option MadeCpu
make_cpu apic insertid blocks =
    if blocks 0 == 0 then none else some (filled_cpu apic insertid blocks)

-- `cpus` and `cpuid_to_cputord`.
pub record Cpus : Type 0 where
  pub cpus : List MadeCpu
  pub ord : ℕ → ℕ

unfoldable pub push_cpu : Subtable → Cpus → Option MadeCpu → Option Cpus
push_cpu lapic s none = none
push_cpu lapic s (some cpu) = some (record {
  cpus = s.cpus ++ (cpu ∷ []);
  ord = λ p. if p == lapic.processor_id then length s.cpus else s.ord p;
})

-- A subtable of the loop in `initialize_cpus`: an enabled local APIC gets a processor.
-- `blocks n` are the answers of `malloc` for the processor `n`; the array grows without a test.
module _ (blocks : ℕ → ℕ → ℕ) where
  unfoldable pub add_subtable : Subtable → Cpus → Option Cpus
  unfolding make_cpu push_cpu
  add_subtable h s =
      if h.type == 0 && h.lapic_flags == 1
      then push_cpu h s (make_cpu (some h) (length s.cpus) (blocks (length s.cpus)))
      else some s

  -- How the walk over the MADT ends: `halted` is `error`, `endless` the end of the fuel.
  pub data Walk : Type 0 where
    walked : Cpus → Walk
    halted endless : Walk

  unfoldable pub or_halted : Option Cpus → (Cpus → Walk) → Walk
  or_halted none k = halted
  or_halted (some s) k = k s

  -- The loop at `addr` with `bytes` left; `at` reads a subtable.
  unfoldable pub madt_loop : (ℕ → Subtable) → ℕ → ℕ → ℕ → Cpus → Walk
  unfolding add_subtable
  madt_loop at zero addr bytes s = if bytes == 0 then walked s else endless
  madt_loop at (suc fuel) addr bytes s =
      let h = at addr in
      let next =
        or_halted (add_subtable h s)
          (madt_loop at fuel (add64 addr h.length) (sub64 bytes h.length)) in
      if bytes == 0 then walked s else next

  -- `initialize_cpus`: `madt` is the address and the length of the table that `find_madt` gives.
  unfoldable pub initialize_cpus : (ℕ → Subtable) → ℕ → Option (ℕ × ℕ) → Walk
  unfolding make_cpu or_halted
  initialize_cpus at fuel none =
      or_halted
        (Option.map (λ cpu. record { cpus = cpu ∷ []; ord = λ p. 0 }) (make_cpu none 0 (blocks 0)))
        walked
  initialize_cpus at fuel (some (madt, len)) =
      madt_loop at fuel (add64 madt 44) (sub64 len 44) (record { cpus = []; ord = λ p. 0 })

-- `send_ipi_to`: the words for the two registers; `control_flags` has none of the bits of `vector`.
unfoldable pub ipi_payload : ℕ → ℕ → Bool → ℕ
ipi_payload vector control_flags init_ipi =
    vector + (if init_ipi then 0 else 2 ^ 14) + control_flags

-- A message: its target and its payload.
pub record Sent : Type 0 where
  pub apic : ℕ
  pub payload : ℕ

unfoldable pub send_ipi_to : ℕ → ℕ → ℕ → Bool → List Sent → List Sent
unfolding ipi_payload
send_ipi_to apic_id vector control_flags init_ipi sent =
    sent ++ (record { apic = apic_id; payload = ipi_payload vector control_flags init_ipi } ∷ [])

-- A loop of `initialize_mp` that sends to every processor but the local one, which it marks.
unfoldable pub start_loop : ℕ → ℕ → ℕ → List MadeCpu → List Sent → List MadeCpu × List Sent
unfolding send_ipi_to
start_loop localcpu vector flags [] sent = ([], sent)
start_loop localcpu vector flags (c ∷ cs) sent =
    let is_local = c.apic_id == localcpu in
    let sent' = if is_local then sent else send_ipi_to c.apic_id vector flags true sent in
    let rest = start_loop localcpu vector flags cs sent' in
    ((if is_local then record c { started = true } else c) ∷ rest.0, rest.1)

-- The last loop: the startup message again to those that have not started.
unfoldable pub again_loop : ℕ → List MadeCpu → List Sent → List Sent
unfolding send_ipi_to
again_loop localcpu [] sent = sent
again_loop localcpu (c ∷ cs) sent =
    let skipped = c.apic_id == localcpu || c.started in
    again_loop localcpu cs (if skipped then sent else send_ipi_to c.apic_id 2 0x600 true sent)

unfoldable pub all_started : List MadeCpu → Bool
all_started [] = true
all_started (c ∷ cs) = c.started && all_started cs

-- `initialize_mp`; `later` is what the processors have made of their structures after the second
-- wait, `ap_main` setting `started`.
unfoldable pub initialize_mp :
    (List MadeCpu → List MadeCpu) → ℕ → List MadeCpu → List MadeCpu × List Sent
unfolding start_loop again_loop all_started
initialize_mp later localcpu cpus =
    let first = start_loop localcpu 0 0x500 cpus [] in
    let second = start_loop localcpu 2 0x600 first.0 first.1 in
    let cpus' = later second.0 in
    (cpus', if all_started cpus' then second.1 else again_loop localcpu cpus' second.1)
