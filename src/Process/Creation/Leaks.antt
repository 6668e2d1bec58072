-- ===== src/Process/Creation/Leaks.antt =====
-- `create_process_base` (src/kernel/processes/process.c) as a whole: the blocks in use afterwards.
use cthulhu_os.Prelude.{
  false, ℕ, zero, suc, ◌+◌, ◌*◌, ◌<◌, ◌≡◌, refl, ◌⊎◌, inl, inr, Bool, true, List, [], ◌∷◌, ◌++◌,
  Bool-cases, length, ltb, arith, All,
}
use cthulhu_os.Process.Creation.{
  Block, block_code, threads, page_table, pq_input_buffer, temp_processes, argv_table, envp_table,
  argv_string, envp_string, Heap, release_all, Error, enomem_internal, einval, Made, made, failed,
  faulted, after_made, or_undo, free_array,
}
use cthulhu_os.Process.Creation.Base.{
  Creating, Program, create_blocks, Built, build_user, Numbers, finish_process, copy_arguments,
  create_process_base, frees_all,
}
use cthulhu_os.Process.Creation.Blocks.{
  heap, IsAbsent, IsAbsent-append, append_assoc, copies, free_array-copies, cpy_array-Ends,
}
use cthulhu_os.Process.Creation.Ledger.{
  arguments, complete, IsSettled, create_blocks-IsSettled, build_user-IsSettled,
}

argv_codes : (i : ℕ) → block_code (argv_string i) ≡ 15 + 2 * i
argv_codes i = refl

envp_codes : (i : ℕ) → block_code (envp_string i) ≡ 16 + 2 * i
envp_codes i = refl

small : All (λ x. block_code x < 13) complete
small = (
  omega arith,
  (
    omega arith,
    (
      omega arith,
      (
        omega arith,
        (
          omega arith,
          (
            omega arith,
            (
              omega arith,
              (omega arith, (omega arith, (omega arith, (omega arith, (omega arith, tt))))),
            ),
          ),
        ),
      ),
    ),
  ),
)

-- The copies have larger codes than the other blocks.
late-IsAbsent :
    (b : Block) (xs : List Block)
    → All (λ x. block_code x < 13) xs
    → 12 < block_code b
    → IsAbsent b xs
late-IsAbsent b [] l h = tt
late-IsAbsent b (x ∷ xs) (e, l) h = (ground arith, late-IsAbsent b xs l h)

argv-envp-IsAbsent : (i k n : ℕ) → IsAbsent (argv_string i) (copies envp_string k n)
argv-envp-IsAbsent i k zero = tt
argv-envp-IsAbsent i k (suc n) =
    IsAbsent-append (argv_string i) (copies envp_string (suc k) n) (envp_string k ∷ [])
      (argv-envp-IsAbsent i (suc k) n) (ground arith, tt)

table-envp-IsAbsent : (k n : ℕ) → IsAbsent argv_table (copies envp_string k n)
table-envp-IsAbsent k zero = tt
table-envp-IsAbsent k (suc n) =
    IsAbsent-append argv_table (copies envp_string (suc k) n) (envp_string k ∷ [])
      (table-envp-IsAbsent (suc k) n) (ground arith, tt)

-- At the end the copies of the arguments are freed, from below the blocks of the process.
free_arguments :
    (argc envc : ℕ) (base faults : List Block)
    → free_array envp_table envp_string envc (
        free_array argv_table argv_string argc (heap (complete ++ arguments argc envc base) faults))
      ≡ heap (complete ++ base) faults
free_arguments argc envc base faults =
    let envps : List Block = copies envp_string 0 envc ++ (envp_table ∷ []) in
    let below : List Block = copies argv_string 0 argc ++ (argv_table ∷ base) in
    let strings : (i : ℕ) → IsAbsent (argv_string i) (complete ++ envps) = λ i.
      IsAbsent-append (argv_string i) complete envps
        (late-IsAbsent (argv_string i) complete small (omega arith))
        (IsAbsent-append (argv_string i) (copies envp_string 0 envc) (envp_table ∷ [])
          (argv-envp-IsAbsent i 0 envc) (ground arith, tt)) in
    let table : IsAbsent argv_table (complete ++ envps) =
      IsAbsent-append argv_table complete envps
        (late-IsAbsent argv_table complete small (omega arith))
        (IsAbsent-append argv_table (copies envp_string 0 envc) (envp_table ∷ [])
          (table-envp-IsAbsent 0 envc) (refl, tt)) in
    let first : free_array argv_table argv_string argc (heap ((complete ++ envps) ++ below) faults)
        ≡ heap ((complete ++ envps) ++ base) faults =
      free_array-copies argv_string 15 argv_codes argv_table argc (complete ++ envps) base faults
        strings table refl in
    let second : free_array envp_table envp_string envc
          (heap (complete ++ (copies envp_string 0 envc ++ (envp_table ∷ base))) faults)
        ≡ heap (complete ++ base) faults =
      free_array-copies envp_string 16 envp_codes envp_table envc complete base faults
        (λ i. late-IsAbsent (envp_string i) complete small (omega arith))
        (late-IsAbsent envp_table complete small (omega arith)) refl in
    rw (
      ← append_assoc (copies envp_string 0 envc) (envp_table ∷ []) below,
      first,
      append_assoc (copies envp_string 0 envc) (envp_table ∷ []) base,
      second,
    )

module _ (argc envc : ℕ) (base faults : List Block) where
  -- What `create_process_base` may leave. A new process holds its own blocks and no more. A failure
  -- leaves the blocks as they were, or leaves the kernel's copies of the arguments, alone or with
  -- the array of the threads or the frame of the page table.
  unfoldable pub IsAccounted : {A : Type 0} → Made A → Type 0
  IsAccounted (made a h) = h ≡ heap (complete ++ base) faults
  IsAccounted faulted = Unit
  IsAccounted (failed e h) =
      (h ≡ heap base faults)
      ⊎ (h ≡ heap (arguments argc envc base) faults)
      ⊎ (h ≡ heap (threads ∷ arguments argc envc base) faults)
      ⊎ (h ≡ heap (page_table ∷ arguments argc envc base) faults)

  failed-IsAccounted :
      (A B : Type 0) (e : Error) (h : Heap)
      → IsSettled (arguments argc envc base) faults {A = A} (failed e h)
      → IsAccounted {A = B} (failed e h)
  unfolding IsAccounted IsSettled
  failed-IsAccounted A B e h (inl p) = inr (inl p)
  failed-IsAccounted A B e h (inr (inl p)) = inr (inr (inl p))
  failed-IsAccounted A B e h (inr (inr p)) = inr (inr (inr p))

  untouched-IsAccounted :
      (A : Type 0) (e : Error) → IsAccounted {A = A} (failed e (heap base faults))
  unfolding IsAccounted
  untouched-IsAccounted A e = inl refl

  faulted-IsAccounted : (A : Type 0) → IsAccounted {A = A} faulted
  unfolding IsAccounted
  faulted-IsAccounted A = tt

  after_made-IsAccounted :
      (A B : Type 0) (m : Made A) (k : A → Heap → Made B)
      → IsSettled (arguments argc envc base) faults m
      → ((a : A) → IsAccounted (k a (heap (complete ++ arguments argc envc base) faults)))
      → IsAccounted (after_made m k)
  unfolding after_made IsSettled
  after_made-IsAccounted A B (made a h) k e f = rw e (f a)
  after_made-IsAccounted A B (failed x h) k e f = failed-IsAccounted A B x h e
  after_made-IsAccounted A B faulted k e f = faulted-IsAccounted _

-- A read or write through NULL.
abbrev pub has_faulted : {A : Type 0} → Made A → Bool
has_faulted faulted = true
has_faulted (made a h) = false
has_faulted (failed e h) = false

module _ (argc envc : ℕ) (base faults : List Block) where
  -- What `create_process_base` leaves when it returns.
  unfoldable pub IsFinished : {A : Type 0} → Made A → Type 0
  IsFinished (made a h) = h ≡ heap (complete ++ base) faults
  IsFinished faulted = ⊥
  IsFinished (failed e h) =
      (h ≡ heap base faults)
      ⊎ (h ≡ heap (arguments argc envc base) faults)
      ⊎ (h ≡ heap (threads ∷ arguments argc envc base) faults)
      ⊎ (h ≡ heap (page_table ∷ arguments argc envc base) faults)

  IsAccounted-IsFinished :
      (A : Type 0) (m : Made A)
      → has_faulted m ≡ false
      → IsAccounted argc envc base faults m
      → IsFinished m
  unfolding IsFinished IsAccounted
  IsAccounted-IsFinished A (made a h) e k = k
  IsAccounted-IsFinished A faulted e k = absurd (ground arith)
  IsAccounted-IsFinished A (failed x h) e k = k

module _ (creating : Creating) (grants : Block → Bool) (area_ok : ℕ → Bool) (random : ℕ → ℕ → ℕ)
    (argv envp : List (List ℕ)) (base faults : List Block) where
  copy_arguments-Ends :
      (copy_arguments creating grants area_ok random argv envp (heap base faults)
        ≡ made (argv, envp) (heap (arguments (length argv) (length envp) base) faults))
      ⊎ (copy_arguments creating grants area_ok random argv envp (heap base faults)
          ≡ failed enomem_internal (heap base faults))
  unfolding copy_arguments after_made or_undo
  copy_arguments-Ends =
      elim (cpy_array-Ends argv_string 15 argv_codes grants argv_table argv base faults refl) [
        | inr e ↦ inr (rw e)
        | inl e ↦
            elim (cpy_array-Ends envp_string 16 envp_codes grants envp_table envp
              (copies argv_string 0 (length argv) ++ (argv_table ∷ base)) faults refl) [
                | inl f ↦ inl (rw (e, f))
                | inr f ↦ inr (
                    rw (
                      e,
                      f,
                      free_array-copies argv_string 15 argv_codes argv_table (length argv) [] base
                          faults (λ i. tt) tt refl,
                    ))
              ]
      ]

  finish_process-IsAccounted :
      (numbers : Numbers) (priority : ℕ) (built : Built creating grants area_ok random)
      → IsAccounted (length argv) (length envp) base faults (
          finish_process creating grants area_ok random numbers priority
            (length argv)
            (length envp)
            built
            (heap (complete ++ arguments (length argv) (length envp) base) faults))
  unfolding finish_process IsAccounted
  finish_process-IsAccounted numbers priority built =
      free_arguments (length argv) (length envp) base faults

  blocks-IsAccounted :
      (numbers : Numbers) (program : Program) (asked_priority : ℕ)
      → grants threads ≡ true
      → grants pq_input_buffer ≡ true
      → grants temp_processes ≡ true
      → IsAccounted (length argv) (length envp) base faults (
          after_made
            (create_blocks creating grants
              (heap (arguments (length argv) (length envp) base) faults))
            (λ mem h2.
              after_made
                (or_undo
                  (release_all frees_all)
                  (build_user creating grants area_ok random program argv envp mem h2))
                (λ built h3.
                  finish_process creating grants area_ok random numbers asked_priority
                    (length argv)
                    (length envp)
                    built
                    h3)))
  blocks-IsAccounted numbers program asked_priority t p q =
      let below : List Block = arguments (length argv) (length envp) base in
      after_made-IsAccounted (length argv) (length envp) base faults _ _ _ _
        (create_blocks-IsSettled creating grants area_ok random below faults t p q)
        (λ mem.
          after_made-IsAccounted (length argv) (length envp) base faults _ _ _ _
            (build_user-IsSettled creating grants area_ok random below faults program argv envp mem
              _ refl)
            (finish_process-IsAccounted numbers asked_priority))

  process-IsAccounted :
      (cpp : ℕ) (numbers : Numbers) (program : Program) (asked_priority : ℕ)
      → grants threads ≡ true
      → grants pq_input_buffer ≡ true
      → grants temp_processes ≡ true
      → IsAccounted (length argv) (length envp) base faults (
          create_process_base creating grants area_ok random cpp numbers program argv envp
            asked_priority
            (heap base faults))
  unfolding create_process_base after_made
  process-IsAccounted cpp numbers program asked_priority t p q =
      elim (Bool-cases (ltb asked_priority cpp)) [
        | inl e ↦ rw e (untouched-IsAccounted (length argv) (length envp) base faults _ einval)
        | inr e ↦ elim copy_arguments-Ends [
          | inl f ↦ rw (e, f, after_made) (blocks-IsAccounted numbers program asked_priority t p q)
          | inr f ↦
              rw (e, f, after_made)
                (untouched-IsAccounted (length argv) (length envp) base faults _ enomem_internal)
        ]
      ]

  -- Where the three requests that `create_process_base` does not test are met (`threads`,
  -- `pq_input_buffer` and `temp_processes`), and it does not run into a read or write through NULL
  -- outside of its own blocks, in the memory map or the loader (`faulted`), it passes no NULL and no
  -- freed block to the C library: a new process holds its twelve blocks and no copy of the arguments;
  -- a failure leaves the blocks as they were, or leaves the copies of the arguments, alone or with the
  -- array of the threads or the frame of the page table.
  pub create_process_base-IsAccounted :
      (cpp : ℕ) (numbers : Numbers) (program : Program) (asked_priority : ℕ)
      → grants threads ≡ true
      → grants pq_input_buffer ≡ true
      → grants temp_processes ≡ true
      → has_faulted (
          create_process_base creating grants area_ok random cpp numbers program argv envp
            asked_priority
            (heap base faults))
        ≡ false
      → IsFinished (length argv) (length envp) base faults (
          create_process_base creating grants area_ok random cpp numbers program argv envp
            asked_priority
            (heap base faults))
  create_process_base-IsAccounted cpp numbers program asked_priority t p q e =
      IsAccounted-IsFinished (length argv) (length envp) base faults _ _ e
        (process-IsAccounted cpp numbers program asked_priority t p q)
