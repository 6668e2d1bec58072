-- ===== src/Process/Creation/Tests.antt =====
-- Runs of the creation of processes.
use cthulhu_os.Prelude.{ℕ, ◌≡◌, refl, Bool, true, false, not, some, [], ◌∷◌, ◌==◌}
use cthulhu_os.Loader.Elf.{Elf64Ehdr}
use cthulhu_os.Process.Creation.{
  Block, block_code, page_table, main_thread, temp_processes, enomem_internal, failed, on_null, try,
  after_made,
}
use cthulhu_os.Process.Creation.Base.{
  Creating, Program, Numbers, create_blocks, create_process_base,
}
use cthulhu_os.Process.Creation.Blocks.{heap}
use cthulhu_os.Process.Creation.Leaks.{IsFinished, has_faulted, create_process_base-IsAccounted}
use cthulhu_os.Process.Creation.Stage.{CpStage1, Stage, cp_stage_1}
use cthulhu_os.Process.Creation.Cleanup.{IsCleaned, cp_stage_1-IsCleaned}

-- A memory that counts the operations on it; the kernel sees a byte at its own address.
abbrev counting : Creating
counting = record {
  Mem = ℕ;
  allocate = λ from amount m. (true, m);
  deallocate = λ from amount m. m;
  memset_dpgs = λ to v n m. m;
  memcpy_dpgs = λ to from n m. m;
  mem_change_type = λ start len v m. m;
  create_pml4 = some 0;
  different_page_mem = λ address m. some address;
  copy_string = λ to text m. m;
  put = λ to v m. v;
}

-- Every request is met but the one for a given block.
abbrev all_but : Block → Block → Bool
all_but b x = not (block_code b == block_code x)

abbrev empty_header : Elf64Ehdr
empty_header = record {
  e_ident = λ i. 0;
  e_type = 0;
  e_machine = 0;
  e_version = 0;
  e_entry = 0;
  e_phoff = 0;
  e_shoff = 0;
  e_flags = 0;
  e_ehsize = 0;
  e_phentsize = 0;
  e_phnum = 0;
  e_shentsize = 0;
  e_shnum = 0;
  e_shstrndx = 0;
}

abbrev no_program : Program
no_program = record { base = 0; header = empty_header; sections = [] }

abbrev numbers : Numbers
numbers = record { process_id_num = 3; thread_id_num = 5; processes = 1 ∷ 2 ∷ 3 ∷ [] }

ran :
    has_faulted (
      create_process_base counting
        (all_but main_thread)
        (λ n. true)
        (λ n d. 0)
        0
        numbers
        no_program
        ((65 ∷ []) ∷ [])
        []
        1
        (heap [] []))
    ≡ false
unfolding create_process_base create_blocks on_null try after_made
ran = refl

create_process_base-IsAccounted_example : IsFinished 1 0 [] [] (
    create_process_base counting
      (all_but main_thread)
      (λ n. true)
      (λ n d. 0)
      0
      numbers
      no_program
      ((65 ∷ []) ∷ [])
      []
      1
      (heap [] []))
create_process_base-IsAccounted_example =
    create_process_base-IsAccounted counting (all_but main_thread) (λ n. true) (λ n d. 0)
      ((65 ∷ []) ∷ []) [] [] [] 0 numbers no_program 1 refl refl refl ran

-- Without memory for the first thread the frame of the page table stays.
no_thread :
    create_blocks counting (all_but main_thread) (heap [] [])
    ≡ failed enomem_internal (heap (page_table ∷ []) [])
unfolding create_blocks on_null try
no_thread = refl

abbrev request : CpStage1
request = record { parent = true; privilege = false; priority = 255 }

abbrev stage : Stage
stage = record { heap = heap [] []; process_id_num = 3; table = []; children = [] }

cp_stage_1-IsCleaned_example :
    IsCleaned
      (all_but temp_processes)
      2
      request
      stage
      (cp_stage_1 (all_but temp_processes) true true 2 request stage)
cp_stage_1-IsCleaned_example =
    cp_stage_1-IsCleaned (all_but temp_processes) 2 request stage true true
