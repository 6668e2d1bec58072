-- ===== src/Process/Tests.antt =====
-- Runs of the scheduler, and its theorems at small queues of the list implementation.
use cthulhu_os.Prelude.{ℕ, ◌+◌, ◌*◌, ◌≡◌, refl, ◌↔◌, false, some, List, [], ◌∷◌, arith}
use cthulhu_os.Process.Queues.{list_queues}
use cthulhu_os.Process.Scheduler.{
  do_get_priority_count, get_and_update_threads, best_cpu, enschedule_best,
}
use cthulhu_os.Process.Scheduler.Order.{
  waiting, get_and_update_threads-waiting, select, select-waiting, do_get_priority_count-weight,
  best_cpu-zero,
}
use cthulhu_os.Process.Switch.{Registers, Thread, Cpu, schedule, copy_registers, update}
use cthulhu_os.Process.Switch.Conserve.{Conserves, schedule-Conserves}

abbrev some_queues : List (List ℕ)
some_queues = [] ∷ (11 ∷ 12 ∷ []) ∷ [] ∷ (13 ∷ []) ∷ (14 ∷ 15 ∷ []) ∷ []

-- Thread 11 is selected and 13 moves up one queue.
select_one :
    get_and_update_threads list_queues some_queues
    ≡ (some 11, [] ∷ (12 ∷ []) ∷ (13 ∷ []) ∷ [] ∷ (14 ∷ 15 ∷ []) ∷ [])
unfolding get_and_update_threads
select_one = refl

count_some : do_get_priority_count list_queues some_queues ≡ 12
unfolding do_get_priority_count
count_some = refl

get_and_update_threads-waiting_run :
    ((get_and_update_threads list_queues some_queues).0 ≡ some 11)
    × (waiting list_queues (get_and_update_threads list_queues some_queues).1
        ≡ 12 ∷ 13 ∷ 14 ∷ 15 ∷ [])
get_and_update_threads-waiting_run = get_and_update_threads-waiting list_queues some_queues

select-waiting_example : select list_queues 3 some_queues ≡ 11 ∷ 12 ∷ 13 ∷ []
select-waiting_example = select-waiting list_queues 3 some_queues

do_get_priority_count-weight_run :
    (do_get_priority_count list_queues some_queues ≡ 12)
    × ((do_get_priority_count list_queues some_queues ≡ 0) ↔ (waiting list_queues some_queues ≡ []))
do_get_priority_count-weight_run =
    do_get_priority_count-weight list_queues [] (11 ∷ 12 ∷ []) [] (13 ∷ []) (14 ∷ 15 ∷ [])
      (omega arith)

-- The second processor has nothing to do, and the first one is picked.
abbrev two_cpus : List (List (List ℕ))
two_cpus = some_queues ∷ ([] ∷ [] ∷ [] ∷ [] ∷ [] ∷ []) ∷ []

best_cpu_run : best_cpu list_queues two_cpus ≡ 0
best_cpu_run = best_cpu-zero list_queues two_cpus

enschedule_best_first :
    enschedule_best list_queues 0 16 two_cpus
    ≡ some (
        ((16 ∷ []) ∷ (11 ∷ 12 ∷ []) ∷ [] ∷ (13 ∷ []) ∷ (14 ∷ 15 ∷ []) ∷ [])
        ∷ ([] ∷ [] ∷ [] ∷ [] ∷ [] ∷ [])
        ∷ [])
unfolding enschedule_best do_get_priority_count mathlib.Core.Option.bind
enschedule_best_first = refl

abbrev registers : ℕ → Registers
registers n = record {
  r15 = n;
  r14 = n + 1;
  r13 = 0;
  r12 = 0;
  r11 = 0;
  r10 = 0;
  r9 = 0;
  r8 = 0;
  rbp = 0;
  rcx = n + 2;
  rbx = 0;
  rdx = 0;
  rsi = 0;
  rdi = 0;
  es = 35;
  ds = 35;
  fs = 35;
  rax = n + 3;
  kind = 0;
  ecode = 0;
  rip = n + 4;
  cs = 43;
  rflags = 0x200;
  uesp = n + 5;
  ss = 35;
}

abbrev thread : ℕ → Thread
thread n = record {
  pml4 = n * 0x1000;
  priority = 1;
  blocked = false;
  cont_present = false;
  local_info = 0;
  last_rip = n;
  last_rsp = 0;
  last_rax = 0;
  last_rdi = 0;
  last_rsi = 0;
  last_rdx = 0;
  last_rcx = 0;
  last_r8 = 0;
  last_r9 = 0;
  last_r10 = 0;
  last_r11 = 0;
  last_rbx = 0;
  last_rbp = 0;
  last_r12 = 0;
  last_r13 = 0;
  last_r14 = 0;
  last_r15 = 0;
  last_rflags = 0x200;
}

-- Thread 10 runs, and 11 to 15 wait.
abbrev cpu : Cpu list_queues
cpu = record {
  run_queues = some_queues;
  ct = some 10;
  current_address_space = 0xa000;
  active_page = 0xa000;
  gs = 0;
  threads = thread;
}

schedule-Conserves_example :
    Conserves list_queues cpu (schedule list_queues (some (registers 100)) cpu)
schedule-Conserves_example =
    schedule-Conserves list_queues (some (registers 100)) cpu
      record { queued = λ o on. omega arith; running = λ e. cc }

-- 10 is left for 11; later 10 is resumed in place of 12, at processor state `later`.
abbrev saved_ten : Thread
saved_ten = copy_registers (registers 100) (thread 10)

abbrev middle : Cpu list_queues
middle = record {
  run_queues = [] ∷ (11 ∷ 12 ∷ 10 ∷ []) ∷ [] ∷ (13 ∷ []) ∷ (14 ∷ 15 ∷ []) ∷ [];
  ct = some 11;
  current_address_space = 11 * 0x1000;
  active_page = 11 * 0x1000;
  gs = 0;
  threads = update (update thread 10 saved_ten) 11 (thread 11);
}

abbrev later : Cpu list_queues
later = record middle { run_queues = some_queues; ct = some 12 }
