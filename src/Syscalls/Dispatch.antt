-- ===== src/Syscalls/Dispatch.antt =====
-- What a system call does with the table of the kernel (src/kernel/syscalls/sys.c: `sys_handler`,
-- `do_sys_handler`, `initialize_system_calls`).
use cthulhu_os.Prelude.{
  ℕ, zero, suc, ◌-◌, ◌%◌, ◌≤◌, ◌<◌, ◌≡◌, ◌≢◌, ◌⊎◌, refl, sym, ap, ◌∙◌, true, false, inl, inr, List,
  [], ◌∷◌, map, ltb, lt→ltb, leb, ◌==◌, u16, u64, Bool-cases, All, arith,
}
use cthulhu_os.Syscalls.{
  Syscall, SyscallTable, make_syscall, register_syscall, Argument, value, Continuation, Answer,
  Served, do_sys_handler, save_continuation, sys_handler, sys_alloc_cont, plain_arguments,
}
use cthulhu_os.Syscalls.Table.{
  Routine, Entry, entries, cleared, register_all, initialize_system_calls,
}
use cthulhu_os.Process.Switch.{Registers}

-- A number that some entry has, and an entry of the list.
abbrev pub Among : ℕ → List Entry → Type 0
Among n [] = ⊥
Among n (e ∷ es) = (n ≡ e.number) ⊎ Among n es

abbrev pub IsMember : Entry → List Entry → Type 0
IsMember e [] = ⊥
IsMember e (x ∷ es) = (x ≡ e) ⊎ IsMember e es

-- What the table holds for an entry.
abbrev pub registered : Entry → Syscall Routine
registered e = record {
  present = true;
  uses_error = false;
  unsafe = e.unsafe;
  args = e.args;
  syscall = e.routine;
}

abbrev pub first : ℕ → List ℕ → List ℕ
first zero xs = []
first (suc n) [] = []
first (suc n) (x ∷ xs) = x ∷ first n xs

-- The registers that hold the arguments, in their order.
abbrev pub argument_registers : Registers → List ℕ
argument_registers r = r.rdi ∷ r.rsi ∷ r.rdx ∷ r.r8 ∷ r.r9 ∷ []

plain_arguments-first :
    (r : Registers) (n : ℕ)
    → n ≤ 5
    → plain_arguments n r ≡ map value (first n (argument_registers r))
unfolding plain_arguments
plain_arguments-first r zero h = refl
plain_arguments-first r (suc zero) h = refl
plain_arguments-first r (suc (suc zero)) h = refl
plain_arguments-first r (suc (suc (suc zero))) h = refl
plain_arguments-first r (suc (suc (suc (suc zero)))) h = refl
plain_arguments-first r (suc (suc (suc (suc (suc zero))))) h = refl
plain_arguments-first r (suc (suc (suc (suc (suc (suc n)))))) h = absurd (omega arith)

register_all-others :
    (n : ℕ) (es : List Entry) (table : SyscallTable Routine)
    → n < u16
    → All (λ (e : Entry). e.number < u16) es
    → ¬ Among n es
    → register_all es table n ≡ table n
unfolding register_all
register_all-others n [] table h a b = refl
register_all-others n (e ∷ es) table h a b =
    register_all-others n es
      (register_syscall (leb 2048 e.number) e.number
        (make_syscall false e.args e.routine false e.unsafe) table)
      h a.1 (λ k. b (inr k))
    ∙ other
  where
    other :
        register_syscall
          (leb 2048 e.number)
          e.number
          (make_syscall false e.args e.routine false e.unsafe)
          table
          n
        ≡ table n
    other = elim (Bool-cases (n == e.number % u16)) [
      | inl k ↦ absurd (b (inl (ground arith)))
      | inr k ↦ rw k refl
    ]

-- An entry as it stands in the table, with a number and arguments within the bounds.
pub record IsServed (e : Entry) : Type 0 where
  pub held : initialize_system_calls e.number ≡ registered e
  pub number : e.number < 4096
  pub few : e.args ≤ 5

served :
    (e : Entry)
    → initialize_system_calls e.number ≡ registered e
    → e.number < 4096
    → e.args ≤ 5
    → IsServed e
served e h a b = record { held = h; number = a; few = b }

entries-IsServed : All IsServed entries
unfolding entries initialize_system_calls
entries-IsServed = (
  served _ refl (omega arith) (omega arith),
  (
    served _ refl (omega arith) (omega arith),
    (
      served _ refl (omega arith) (omega arith),
      (
        served _ refl (omega arith) (omega arith),
        (
          served _ refl (omega arith) (omega arith),
          (
            served _ refl (omega arith) (omega arith),
            (
              served _ refl (omega arith) (omega arith),
              (
                served _ refl (omega arith) (omega arith),
                (
                  served _ refl (omega arith) (omega arith),
                  (
                    served _ refl (omega arith) (omega arith),
                    (
                      served _ refl (omega arith) (omega arith),
                      (
                        served _ refl (omega arith) (omega arith),
                        (
                          served _ refl (omega arith) (omega arith),
                          (
                            served _ refl (omega arith) (omega arith),
                            (
                              served _ refl (omega arith) (omega arith),
                              (
                                served _ refl (omega arith) (omega arith),
                                (
                                  served _ refl (omega arith) (omega arith),
                                  (
                                    served _ refl (omega arith) (omega arith),
                                    (served _ refl (omega arith) (omega arith), tt),
                                  ),
                                ),
                              ),
                            ),
                          ),
                        ),
                      ),
                    ),
                  ),
                ),
              ),
            ),
          ),
        ),
      ),
    ),
  ),
)

find_entry :
    (n : ℕ) (es : List Entry)
    → All IsServed es
    → ((e : Entry) × IsMember e es × IsServed e × (e.number ≡ n)) ⊎ (¬ Among n es)
find_entry n [] a = inr (λ k. k)
find_entry n (e ∷ es) a = elim (Bool-cases (e.number == n)) [
  | inl h ↦ inl (e, inl refl, a.0, ground arith)
  | inr h ↦ elim (find_entry n es a.1) [
    | inl found ↦ inl (found.0, inr found.1, found.2, found.3)
    | inr no_entry ↦ inr (λ k. elim k [ inl here ↦ ground arith | inr there ↦ no_entry there ])
  ]
]

below : (es : List Entry) → All IsServed es → All (λ (e : Entry). e.number < u16) es
below [] a = tt
below (e ∷ es) a = (omega (arith, a.0.number), below es a.1)

absent-entry : (n : ℕ) → n < 4096 → ¬ Among n entries → (initialize_system_calls n).present ≡ false
unfolding initialize_system_calls cleared
absent-entry n h none =
    ap (λ (t : Syscall Routine). t.present)
      (register_all-others n entries cleared (omega arith) (below entries entries-IsServed) none)

module _ {World : Type 0}
    (call : Routine
      → List Argument
      → Registers
      → Continuation Routine
      → World
      → Answer Routine World) where
  -- The state after the routine of an entry has answered.
  abbrev pub answered : Answer Routine World → Served call
  answered a = record {
    registers = record a.registers { rax = a.result };
    continuation = a.continuation;
    world = a.world;
  }

  pub data Outcome (einval : ℕ) (s : Served call) : Served call → Type 0 where
    refused :
        ¬ Among s.registers.rax entries
        → Outcome einval s (record s { registers = record s.registers { rdi = u64 - 1 } })
    internal :
        s.registers.rax ≡ sys_alloc_cont
        → Outcome einval s (record s { registers = record s.registers { rax = einval } })
    ran :
        (e : Entry)
        → IsMember e entries
        → e.number ≡ s.registers.rax
        → s.registers.rax ≢ sys_alloc_cont
        → Outcome einval s (
            answered (
              call e.routine
                (map value (first e.args (argument_registers s.registers)))
                s.registers
                (save_continuation call (registered e) s.registers s.continuation)
                s.world))

  -- A system call of the table that the kernel sets up: a number without an entry sets rdi to -1 and
  -- calls nothing, the number of the continuation sets rax to EINVAL and calls nothing, and any other
  -- number calls the routine of its entry once, with the first of rdi, rsi, rdx and r8 as arguments,
  -- and its result goes to rax.
  pub sys_handler-Outcome :
      (einval : ℕ) (s : Served call)
      → Outcome einval s (sys_handler call einval initialize_system_calls s)
  unfolding sys_handler do_sys_handler
  sys_handler-Outcome einval s = go (find_entry s.registers.rax entries entries-IsServed)
    where
      go :
          ((e : Entry) × IsMember e entries × IsServed e × (e.number ≡ s.registers.rax))
            ⊎ (¬ Among s.registers.rax entries)
          → Outcome einval s (sys_handler call einval initialize_system_calls s)
      go (inl (e, is, held, n)) =
          let entry_at_rax = ap initialize_system_calls (sym n) ∙ held.held in
          let bound = lt→ltb s.registers.rax 4096 (omega (arith, held.number, n)) in
          let few = lt→ltb e.args 6 (omega (arith, held.few)) in
          elim (Bool-cases (s.registers.rax == sys_alloc_cont)) [
            | inl c ↦ rw (bound, entry_at_rax, c) (internal (ground arith))
            | inr c ↦
                rw (bound, entry_at_rax, c, few, plain_arguments-first s.registers e.args held.few)
                  (ran e is n (ground arith))
          ]
      go (inr none) = elim (Bool-cases (ltb s.registers.rax 4096)) [
        | inl h ↦ rw (h, absent-entry s.registers.rax (ground arith) none) (refused none)
        | inr h ↦ rw h (refused none)
      ]
