-- ===== src/Syscalls/Tests.antt =====
-- System calls on a kernel whose routines answer with the number of their arguments, and strings in
-- a memory whose only table maps itself.
use cthulhu_os.Prelude.{
  ℕ, zero, suc, ◌+◌, ◌*◌, ◌≤◌, ◌<◌, ◌≡◌, ◌≢◌, refl, true, false, none, some, List, [], ◌∷◌, length,
  ◌==◌, if◌then◌else◌, arith,
}
use cthulhu_os.Process.Switch.{Registers}
use cthulhu_os.Syscalls.{Argument, Continuation, Answer, Served, sys_handler}
use cthulhu_os.Syscalls.Table.{Routine, cleared, initialize_system_calls}
use cthulhu_os.Syscalls.Dispatch.{Outcome, sys_handler-Outcome}
use cthulhu_os.Memory.Paging.{Memory}
use cthulhu_os.Memory.Paging.Sections.{sections}
use cthulhu_os.Memory.Paging.Change.{ms_okay, check_mem_state}
use cthulhu_os.Syscalls.Checks.{validate_string}
use cthulhu_os.Syscalls.Checks.Strings.{validate_string-endless, validate_string-finds}
use cthulhu_os.Syscalls.Heap.{Caller, allocate_memory, deallocate_memory}
use cthulhu_os.Syscalls.Heap.Restored.{
  heap_area, Heap, allocate_memory-Heap, Answered, deallocate_memory-Answered,
}
use cthulhu_os.Process.MemMap.{find_loop}
use cthulhu_os.Syscalls.Exec.{create_process_ivfs}
use cthulhu_os.Syscalls.Exec.Environment.{Stopped, create_process_ivfs-Stopped}
use cthulhu_os.Syscalls.Messages.{Buffer, get_empty_message}
use cthulhu_os.Syscalls.Messages.Buffers.{Taken, answer_of, get_empty_message-Taken}

abbrev count_call :
    Routine → List Argument → Registers → Continuation Routine → ℕ → Answer Routine ℕ
count_call f args r c w = record {
  registers = r;
  continuation = c;
  world = suc w;
  result = length args;
  error = 0;
}

abbrev registers_of : ℕ → Registers
registers_of n = record {
  r15 = 0;
  r14 = 0;
  r13 = 0;
  r12 = 0;
  r11 = 0;
  r10 = 0;
  r9 = 0;
  r8 = 0;
  rbp = 0;
  rcx = 0;
  rbx = 0;
  rdx = 0;
  rsi = 6;
  rdi = 5;
  es = 0;
  ds = 0;
  fs = 0;
  rax = n;
  kind = 0;
  ecode = 0;
  rip = 0;
  cs = 0;
  rflags = 0;
  uesp = 0;
  ss = 0;
}

abbrev no_continuation : Continuation Routine
no_continuation = record {
  continuation = cleared 0;
  arg0 = 0;
  arg1 = 0;
  arg2 = 0;
  arg3 = 0;
  arg4 = 0;
  present = false;
}

abbrev deallocates : Served count_call
deallocates = record { registers = registers_of 2; continuation = no_continuation; world = 0 }

two_arguments : (sys_handler count_call 22 initialize_system_calls deallocates).registers.rax ≡ 2
unfolding sys_handler initialize_system_calls
two_arguments = refl

sys_handler-Outcome_example :
    Outcome count_call 22 deallocates
      (sys_handler count_call 22 initialize_system_calls deallocates)
sys_handler-Outcome_example = sys_handler-Outcome count_call 22 deallocates

abbrev self_mapped : Memory sections
self_mapped = record { words = λ t i. 0x1001; frames = [] }

-- "ab" at 0x2FFE and 0x2FFF, and a 0 at 0x3000 and at 0x3FFE.
abbrev chars : ℕ → ℕ
chars a =
    if a == 0x2FFE
    then 97
    else if a == 0x2FFF
    then 98
    else if a == 0x3000
    then 0
    else if a == 0x3FFE
    then 0
    else 99

validate_string-endless_example :
    validate_string sections true (λ a. 0) 0x1000 100 chars 0x3000 false self_mapped ≡ none
validate_string-endless_example =
    validate_string-endless sections true (λ a. 0) 0x1000 100 chars 0x3000 false self_mapped refl

two_bytes_okay :
    (j : ℕ) (es : List ℕ)
    → j ≤ 1
    → (check_mem_state sections (0x2FFE + j * 0x1000) 2 0x512 es 0x1000 self_mapped).0 ≡ ms_okay
unfolding check_mem_state
two_bytes_okay zero es h = refl
two_bytes_okay (suc zero) es h = refl
two_bytes_okay (suc (suc j)) es h = absurd (omega arith)

not_before : (j k : ℕ) → j < 1 → k < 2 → chars (0x2FFE + j * 0x1000 + k) ≢ 0
not_before zero zero a b e = ground arith
not_before zero (suc zero) a b e = ground arith
not_before zero (suc (suc k)) a b e = absurd (omega arith)
not_before (suc j) k a b e = absurd (omega arith)

validate_string-finds_example :
    (validate_string sections true (λ a. 0) 0x1000 5 chars 0x2FFE false self_mapped
      ≡ some (record { valid = true; present = false; memory = self_mapped }))
    × ((fuel : ℕ)
        → fuel ≤ 1
        → validate_string sections true (λ a. 0) 0x1000 fuel chars 0x2FFE false self_mapped ≡ none)
validate_string-finds_example =
    validate_string-finds sections true (λ a. 0) 0x1000 1 3 0 chars 0x2FFE 2 false self_mapped refl
      (omega arith) (omega arith) (omega arith) two_bytes_okay not_before refl

abbrev caller : Caller sections Routine
caller = record {
  maps = [];
  memory = self_mapped;
  freed = [];
  locked = false;
  continuation = no_continuation;
}

allocate_memory-Heap_example :
    Heap sections true
      (λ a. 0)
      0x1000
      (cleared 10)
      0x2000
      caller
      (allocate_memory sections true (λ a. 0) 0x1000 (cleared 10) true (λ d. 0) 0x2000 caller)
unfolding find_loop
allocate_memory-Heap_example =
    allocate_memory-Heap sections true (λ a. 0) 0x1000 (cleared 10) (λ d. 0) 0x2000 caller refl
      (λ d p. p) tt (omega arith) tt tt (omega arith) (omega arith)

abbrev with_heap : Caller sections Routine
with_heap = record caller { maps = heap_area 0x5000 0x2000 ∷ [] }

deallocate_memory-Answered_example :
    Answered sections true
      (λ a. 0)
      0x1000
      (cleared 10)
      0x5000
      0x1000
      with_heap
      (deallocate_memory sections true (λ a. 0) 0x1000 (cleared 10) 0x5000 0x1000 with_heap)
deallocate_memory-Answered_example =
    deallocate_memory-Answered sections true (λ a. 0) 0x1000 (cleared 10) 0x5000 0x1000 with_heap
      refl

-- The environment at 0x4000 has an entry.
abbrev words : ℕ → ℕ
words a = if a == 0x4000 then 0x2FFE else 0

create_process_ivfs-Stopped_example :
    Stopped sections true
      (λ a. 0)
      0x1000
      (create_process_ivfs sections true
        (λ a. 0)
        0x1000
        30
        5
        chars
        words
        0x2FFE
        0
        0x5000
        0x4000
        none
        false
        self_mapped)
create_process_ivfs-Stopped_example =
    create_process_ivfs-Stopped sections true (λ a. 0) 0x1000 30 5 chars words 0x2FFE 0 0x5000
      0x4000 none false self_mapped (λ e. ground arith)

abbrev two_buffers : List Buffer
two_buffers =
    record { used = true; message = 0x7000; bytes = λ i. 1 }
    ∷ record { used = false; message = 0x8000; bytes = λ i. 2 }
    ∷ []

get_empty_message-Taken_example :
    (let h = get_empty_message 22 35 true two_buffers in
      Taken two_buffers (h.mp, h.output_buffer) × (h.answer ≡ answer_of 35 h.mp))
get_empty_message-Taken_example = get_empty_message-Taken 22 35 two_buffers
