-- ===== src/Process/Creation/Base.antt =====
-- `create_process_base` (src/kernel/processes/process.c): the blocks of the new process, its program,
-- its arguments and its message buffers, in the order of the code. What a failure frees is the list
-- that the code writes out there, the order included.
use cthulhu_os.Prelude.{
  ℕ, zero, suc, ◌+◌, ◌*◌, Bool, Option, none, some, List, [], ◌∷◌, ltb, ◌==◌, if◌then◌else◌, length,
  ◌++◌,
}
use cthulhu_os.Process.MemMap.{Paging, Space, proc_alloc_direct}
use cthulhu_os.Loader.Elf.{Elf64Ehdr, Elf64Shdr, ElfResult, elf_error_enomem}
use cthulhu_os.Loader.Elf.Sections.{Loading, Step, next, stop, crash, Start, load_elf_exec}
use cthulhu_os.Process.Creation.{
  Block, process_block, fds, threads, page_table, futexes, input_buffer, pq_input_buffer,
  blocked_wait_messages, temp_processes, main_thread, continuation, futex_block, argv_table,
  envp_table, argv_string, envp_string, Heap, take_block, release_all, touch, Error,
  enomem_internal, einval, Made, made, failed, faulted, after_made, free_array, on_null, or_undo,
  try, ask, cpy_array,
}

-- What creation asks of paging: the operations of the loader, `deallocate`, `create_pml4` (NULL is
-- `none`), `different_page_mem` (the address at which the kernel sees a byte of the process), a
-- string copied with `memcpy_dpgs`, and a word written at an address of the kernel.
pub record Creating : Type 1 where
  pub Mem : Type 0
  pub allocate : ℕ → ℕ → Mem → Bool × Mem
  pub deallocate : ℕ → ℕ → Mem → Mem
  pub memset_dpgs : ℕ → ℕ → ℕ → Mem → Mem
  pub memcpy_dpgs : ℕ → ℕ → ℕ → Mem → Mem
  pub mem_change_type : ℕ → ℕ → Bool → Mem → Mem
  pub create_pml4 : Option Mem
  pub different_page_mem : ℕ → Mem → Option ℕ
  pub copy_string : ℕ → List ℕ → Mem → Mem
  pub put : ℕ → ℕ → Mem → Mem

-- The program: its header, its sections, the address that it was read to.
pub record Program : Type 0 where
  pub base : ℕ
  pub header : Elf64Ehdr
  pub sections : List Elf64Shdr

-- The lists that the failures free, each one block longer than the one before.
abbrev pub frees_process : List Block
frees_process = process_block ∷ []

abbrev pub frees_fds : List Block
frees_fds = fds ∷ frees_process

abbrev pub frees_threads : List Block
frees_threads = threads ∷ frees_fds

abbrev pub frees_futexes : List Block
frees_futexes = futexes ∷ frees_threads

abbrev pub frees_input : List Block
frees_input = input_buffer ∷ frees_futexes

abbrev pub frees_pq_input : List Block
frees_pq_input = pq_input_buffer ∷ frees_input

abbrev pub frees_blocked : List Block
frees_blocked = blocked_wait_messages ∷ frees_pq_input

abbrev pub frees_temp : List Block
frees_temp = temp_processes ∷ frees_blocked

abbrev pub frees_thread : List Block
frees_thread = main_thread ∷ frees_temp

abbrev pub frees_continuation : List Block
frees_continuation = continuation ∷ main_thread ∷ frees_temp

abbrev pub frees_all : List Block
frees_all = futex_block ∷ frees_continuation

-- The counters of the numbers, and the list of all processes.
pub record Numbers : Type 0 where
  pub process_id_num : ℕ
  pub thread_id_num : ℕ
  pub processes : List ℕ

module _ (creating : Creating) (grants : Block → Bool) where
  open creating use {Mem, allocate, deallocate, different_page_mem, copy_string, put}

  abbrev pub loading : Loading
  loading = record {
    Mem = Mem;
    allocate = allocate;
    memset_dpgs = creating.memset_dpgs;
    memcpy_dpgs = creating.memcpy_dpgs;
    mem_change_type = creating.mem_change_type;
  }

  abbrev pub paging : Paging
  paging = record { Mem = Mem; allocate = allocate; deallocate = deallocate }

  -- The kernel's structures, up to `array_push_data`. `process->threads`, `pq_input_buffer` and
  -- `temp_processes` are not tested: the tests there repeat the one before. The failure of
  -- `create_pml4` does not free `threads`.
  unfoldable pub create_blocks : Heap → Made Mem
  unfolding ask touch release_all
  create_blocks h0 = try grants process_block [] h0 (λ h1. try grants fds frees_process h1 (λ h2.
      let h3 = ask grants threads h2 in
      on_null creating.create_pml4 (failed enomem_internal (release_all frees_fds h3)) (λ mem.
        try grants futexes frees_threads (take_block page_table h3) (λ h4.
          try grants input_buffer frees_futexes h4 (λ h5.
            let h6 = ask grants pq_input_buffer h5 in
            try grants blocked_wait_messages frees_pq_input h6 (λ h7.
              let h8 = ask grants temp_processes h7 in
              try grants main_thread frees_temp h8 (λ h9.
                try grants continuation frees_thread h9 (λ h10.
                  try grants futex_block frees_continuation h10
                    (λ h11. made mem (touch threads h11))))))))))

  -- The user's side of the creation: `calls` counts the requests for memory of the process, for the
  -- answers of `malloc` and of the random generator.
  pub record User : Type 0 where
    pub calls : ℕ
    pub space : Space paging

  module _ (area_ok : ℕ → Bool) (random : ℕ → ℕ → ℕ) where
    unfoldable pub user_alloc : ℕ → User → Option (ℕ × User)
    user_alloc size u =
        elim (proc_alloc_direct paging (area_ok u.calls) (random u.calls) size u.space) [
          | none ↦ none
          | some r ↦ some (r.0, record { calls = suc u.calls; space = r.1 })
        ]

    abbrev pub in_memory : (Mem → Mem) → User → User
    in_memory f u = record u { space = record u.space { mem = f u.space.mem } }

    -- The loop of `cpy_array_user`: `na` is where the kernel sees the next entry.
    unfoldable pub copy_user_loop : ℕ → List (List ℕ) → User → Heap → Made User
    unfolding user_alloc
    copy_user_loop na [] u h = made (in_memory (put na 0) u) h
    copy_user_loop na (s ∷ ss) u h = on_null (user_alloc (suc (length s)) u) faulted (λ r.
        if r.0 == 0
        then failed enomem_internal h
        else copy_user_loop (na + 8) ss (in_memory (λ m. put na r.0 (copy_string r.0 s m)) r.1) h)

    -- `cpy_array_user`: the result is where the kernel sees the array.
    unfoldable pub cpy_array_user : List (List ℕ) → User → Heap → Made (ℕ × User)
    unfolding user_alloc copy_user_loop
    cpy_array_user array u h = on_null (user_alloc (8 * suc (length array)) u) faulted (λ r.
        on_null (different_page_mem r.0 r.1.space.mem) (failed enomem_internal h)
          (λ na. after_made (copy_user_loop na array r.1 h) (λ u' h'. made (na, u') h')))

    -- The loop over the `MESSAGE_BUFFER_CNT` blocks of `output_buffer`.
    unfoldable pub message_loop : ℕ → User → Heap → Made User
    unfolding user_alloc
    message_loop zero u h = made u h
    message_loop (suc n) u h =
        on_null (user_alloc 0x200000 u) faulted
          (λ r. if r.0 == 0 then failed enomem_internal h else message_loop n r.1 h)

    -- What the loader's result comes to: `ELF_ERROR_ENOMEM` is `ENOMEM_INTERNAL`, every other error
    -- `EINVAL`.
    unfoldable pub elf_error : ElfResult → Error
    elf_error elf_error_enomem = enomem_internal
    elf_error e = einval

    unfoldable pub loaded : User → Heap → Step loading (Start loading) → Made (Start loading × User)
    unfolding elf_error
    loaded u h (next start image) =
        made (start, record u { space = record u.space { maps = image.maps; mem = image.mem } }) h
    loaded u h (stop e image) = failed (elf_error e) h
    loaded u h crash = faulted

    -- `load_elf_exec` in the new address space; it makes as many requests as twice the sections and
    -- one for the stack.
    unfoldable pub load_program : Program → User → Heap → Made (Start loading × User)
    unfolding loaded
    load_program program u h =
        loaded (record u { calls = suc (length program.sections + length program.sections) }) h
          (load_elf_exec loading area_ok random program.base program.header program.sections
            (record { maps = u.space.maps; mem = u.space.mem }))

    -- What the user's side leaves: the fields of the process and of its thread that are read from it.
    pub record Built : Type 0 where
      pub start : Start loading
      pub argv : ℕ
      pub environ : ℕ
      pub local_info : ℕ
      pub user : User

    unfoldable pub build_info : Start loading → ℕ → ℕ → User → Heap → Made Built
    unfolding user_alloc message_loop
    build_info start argv environ u h = on_null (user_alloc 32 u) faulted (λ r.
        if r.0 == 0
        then failed enomem_internal h
        else on_null (different_page_mem r.0 r.1.space.mem) faulted (λ li.
          after_made (message_loop 30 (in_memory (put li r.0) r.1) h) (λ u' h'.
            made
              (record { start = start; argv = argv; environ = environ; local_info = li; user = u' })
              h')))

    -- The program, the arguments, the thread's own structure, the message buffers.
    unfoldable pub build_user : Program → List (List ℕ) → List (List ℕ) → Mem → Heap → Made Built
    unfolding load_program cpy_array_user build_info
    build_user program argv envp mem h =
        let user : User = record {
          calls = 0;
          space = record { maps = []; mem = mem; freed = [] };
        } in
        after_made (load_program program user h) (λ l h1.
          after_made (cpy_array_user argv l.1 h1) (λ a h2.
            after_made (cpy_array_user envp a.1 h2) (λ e h3. build_info l.0 a.0 e.0 e.1 h3)))

    -- The new process and its first thread, the numbers afterwards, and the threads that were given
    -- to `enschedule_best`.
    pub record Created : Type 0 where
      pub proc_id : ℕ
      pub t_id : ℕ
      pub priority : ℕ
      pub argc : ℕ
      pub built : Built
      pub last_rax : ℕ
      pub last_rdi : ℕ
      pub last_rsi : ℕ
      pub last_rdx : ℕ
      pub last_rflags : ℕ
      pub numbers : Numbers
      pub enscheduled : List ℕ

    unfoldable pub finish_process : Numbers → ℕ → ℕ → ℕ → Built → Heap → Made Created
    unfolding free_array
    finish_process numbers priority argc envc built h =
        let proc : ℕ = suc numbers.process_id_num in
        let t : ℕ = suc numbers.thread_id_num in
        let built' : Built = record built {
          user = in_memory (put (built.local_info + 8) t) built.user;
        } in
        made
          (record {
            proc_id = proc;
            t_id = t;
            priority = priority;
            argc = argc;
            built = built';
            last_rax = proc;
            last_rdi = argc;
            last_rsi = built.argv;
            last_rdx = built.environ;
            last_rflags = 0x200;
            numbers = record {
              process_id_num = proc;
              thread_id_num = t;
              processes = numbers.processes ++ (proc ∷ []);
            };
            enscheduled = t ∷ [];
          })
          (free_array envp_table envp_string envc (free_array argv_table argv_string argc h))

    -- The kernel's copies of the arguments; the first is freed where the second fails.
    unfoldable pub copy_arguments :
        List (List ℕ) → List (List ℕ) → Heap → Made (List (List ℕ) × List (List ℕ))
    unfolding cpy_array free_array or_undo
    copy_arguments argv envp h =
        after_made (cpy_array grants argv_table argv_string argv h) (λ argv' h1.
          or_undo (free_array argv_table argv_string (length argv)) (
            after_made (cpy_array grants envp_table envp_string envp h1)
              (λ envp' h2. made (argv', envp') h2)))

    -- Every failure after `array_push_data` frees the same blocks. `cpp` is the priority of the calling process, `argv` has `argc` strings.
    unfoldable pub create_process_base :
        ℕ → Numbers → Program → List (List ℕ) → List (List ℕ) → ℕ → Heap → Made Created
    unfolding copy_arguments create_blocks build_user or_undo release_all finish_process
    create_process_base cpp numbers program argv envp asked_priority h =
        if ltb asked_priority cpp
        then failed einval h
        else after_made (copy_arguments argv envp h) (λ copies h1.
          after_made (create_blocks h1) (λ mem h2.
            after_made
              (or_undo (release_all frees_all) (build_user program copies.0 copies.1 mem h2))
              (λ built h3.
                finish_process numbers asked_priority (length argv) (length envp) built h3)))
