-- ===== src/Process/Creation/Init.antt =====
-- The first process (src/kernel/processes/process.c): `initialize_processes`,
-- `create_init_process_structure` and `process_init`. A failure calls `error`, which does not return.
use cthulhu_os.Prelude.{
  ℕ, suc, ◌+◌, ◌≡◌, Option, none, some, arith, Bool, true, ◌&&◌, List, [], ◌∷◌, ◌++◌, ◌==◌,
  if◌then◌else◌,
}
use cthulhu_os.Process.Creation.{
  Block, process_block, fds, threads, futexes, input_buffer, pq_input_buffer, blocked_wait_messages,
  temp_processes, main_thread, continuation, futex_block, Heap, take_block, ask, Made, made, failed,
  faulted,
}
use cthulhu_os.Process.Creation.Base.{Creating, Numbers, User, user_alloc, message_loop, in_memory}

unfoldable pub initialize_processes : Numbers
initialize_processes = record { process_id_num = 0; thread_id_num = 0; processes = [] }

-- The fields of the process and of its thread that are not 0.
pub record InitProcess : Type 0 where
  pub proc_id : ℕ
  pub t_id : ℕ
  pub pprocess : Bool
  pub pml4 : ℕ
  pub numbers : Numbers
  pub heap : Heap

pub data Boot (A : Type 0) : Type 0 where
  booted : A → Boot A
  halted : Boot A

module _ (grants : Block → Bool) where
  -- `p = ...; if (p == NULL) error(...);`
  unfoldable pub require : {A : Type 0} → Block → Heap → (Heap → Boot A) → Boot A
  require b h k = if grants b then k (take_block b h) else halted

  -- The test behind `temp_processes` repeats the one for `blocked_wait_messages`. `push_ok` is
  -- whether `array_push_data` has the memory for the thread.
  unfoldable pub init_thread : Bool → InitProcess → Boot InitProcess
  unfolding require ask
  init_thread push_ok p = require main_thread (ask grants temp_processes p.heap) (λ h1.
      require futex_block h1 (λ h2. require continuation h2 (λ h3.
        let t : ℕ = suc p.numbers.thread_id_num in
        if push_ok
        then booted
            (record p { t_id = t; numbers = record p.numbers { thread_id_num = t }; heap = h3 })
        else halted)))

  unfoldable pub create_init_process_structure : Bool → ℕ → Numbers → Heap → Boot InitProcess
  unfolding require init_thread
  create_init_process_structure push_ok pml numbers h = require process_block h (λ h1.
      let id : ℕ = suc numbers.process_id_num in
      require fds h1 (λ h2. require threads h2 (λ h3. require futexes h3 (λ h4.
        require input_buffer h4 (λ h5. require pq_input_buffer h5 (λ h6.
          require blocked_wait_messages h6 (λ h7. init_thread push_ok (record {
            proc_id = id;
            t_id = 0;
            pprocess = true;
            pml4 = pml;
            numbers = record numbers {
              process_id_num = id;
              processes = numbers.processes ++ (id ∷ []);
            };
            heap = h7;
          }))))))))

-- The thread's own structure and the message buffers of the first process, in its address space.
module _ (creating : Creating) (grants : Block → Bool) (area_ok : ℕ → Bool)
    (random : ℕ → ℕ → ℕ) where
  unfoldable pub messages_made : Made (User creating grants) → Boot (User creating grants)
  messages_made (made u h) = booted u
  messages_made (failed e h) = halted
  messages_made faulted = halted

  -- The address space of the process is the active one. `t` is the thread's number.
  unfoldable pub init_info : ℕ → ℕ → User creating grants → Heap → Boot (User creating grants)
  unfolding messages_made
  init_info t address u h =
      if address == 0
      then halted
      else messages_made (
          message_loop creating grants area_ok random 30
            (in_memory creating grants area_ok random
              (λ m. creating.put (address + 8) t (creating.put address address m)) u)
            h)

  -- A `none` of `user_alloc` is a fault, which ends here as `error` does.
  unfoldable pub if_taken : {X A : Type 0} → Option X → (X → Boot A) → Boot A
  if_taken none k = halted
  if_taken (some x) k = k x

  unfoldable pub process_init : ℕ → User creating grants → Heap → Boot (User creating grants)
  unfolding if_taken init_info
  process_init t u h =
      if_taken (user_alloc creating grants area_ok random 32 u) (λ r. init_info t r.0 r.1 h)

-- Whether every block of a list is granted.
abbrev pub all_granted : (Block → Bool) → List Block → Bool
all_granted grants [] = true
all_granted grants (b ∷ bs) = grants b && all_granted grants bs

-- The blocks that the first process cannot do without.
abbrev pub required : List Block
required =
    process_block ∷ fds ∷ threads ∷ futexes ∷ input_buffer ∷ pq_input_buffer ∷ blocked_wait_messages
    ∷ main_thread ∷ futex_block ∷ continuation ∷ []

-- The first process is made exactly if every block but `temp_processes` is granted and the thread is
-- entered; then it takes the next numbers of a process and of a thread and is the last of the list.
pub create_init_process_structure-required :
    (grants : Block → Bool) (push_ok : Bool) (pml : ℕ) (numbers : Numbers) (h : Heap)
    → create_init_process_structure grants push_ok pml numbers h ≡ (
        if all_granted grants required && push_ok
        then booted (record {
          proc_id = suc numbers.process_id_num;
          t_id = suc numbers.thread_id_num;
          pprocess = true;
          pml4 = pml;
          numbers = record {
            process_id_num = suc numbers.process_id_num;
            thread_id_num = suc numbers.thread_id_num;
            processes = numbers.processes ++ (suc numbers.process_id_num ∷ []);
          };
          heap = take_block continuation (
              take_block futex_block (
                take_block main_thread (
                  ask grants temp_processes (
                    take_block blocked_wait_messages (
                      take_block pq_input_buffer (
                        take_block input_buffer (
                          take_block futexes (
                            take_block threads
                              (take_block fds (take_block process_block h))))))))));
        })
        else halted)
unfolding create_init_process_structure init_thread require
create_init_process_structure-required grants push_ok pml numbers h = ground arith
