-- ===== src/Process/Creation/Ledger.antt =====
-- What a creation of a process (src/kernel/processes/process.c) leaves in use of what it took.
use cthulhu_os.Prelude.{
  ℕ, ◌≡◌, refl, ◌⊎◌, inl, inr, Bool, true, Option, none, some, List, [], ◌∷◌, ◌++◌, Bool-cases,
}
use cthulhu_os.Process.Creation.{
  Block, process_block, fds, threads, page_table, futexes, input_buffer, pq_input_buffer,
  blocked_wait_messages, temp_processes, main_thread, continuation, futex_block, argv_table,
  envp_table, argv_string, envp_string, Heap, take_block, release_all, free_block, remove, released,
  touch, Error, enomem_internal, Made, made, failed, faulted, try, ask, on_null, or_undo,
}
use cthulhu_os.Process.Creation.Base.{
  Creating, Program, create_blocks, build_user, frees_process, frees_threads, frees_futexes,
  frees_pq_input, frees_temp, frees_thread, frees_continuation, frees_all,
}
use cthulhu_os.Process.Creation.Blocks.{heap, copies}
use cthulhu_os.Process.Creation.Kept.{Keeps, build_user-Keeps}

-- The blocks of the kernel's copies of the arguments, above the blocks `base`.
abbrev pub arguments : ℕ → ℕ → List Block → List Block
arguments argc envc base =
    copies envp_string 0 envc ++ (envp_table ∷ (copies argv_string 0 argc ++ (argv_table ∷ base)))

-- The blocks of a process that is complete.
abbrev pub complete : List Block
complete =
    futex_block ∷ continuation ∷ main_thread ∷ temp_processes ∷ blocked_wait_messages
    ∷ pq_input_buffer ∷ input_buffer ∷ futexes ∷ page_table ∷ threads ∷ fds ∷ process_block ∷ []

module _ (base faults : List Block) where
  -- What a creation may end with, over the blocks `base` and the faults `faults` before it.
  unfoldable pub IsSettled : {A : Type 0} → Made A → Type 0
  IsSettled (made a h) = h ≡ heap (complete ++ base) faults
  IsSettled faulted = Unit
  IsSettled (failed e h) =
      (h ≡ heap base faults)
      ⊎ (h ≡ heap (threads ∷ base) faults)
      ⊎ (h ≡ heap (page_table ∷ base) faults)

module _ (creating : Creating) (grants : Block → Bool) (area_ok : ℕ → Bool)
    (random : ℕ → ℕ → ℕ) where
  module _ (base faults : List Block) where
    IsSettled-nothing :
        (A : Type 0) (e : Error) (h : Heap)
        → h ≡ heap base faults
        → IsSettled base faults {A = A} (failed e h)
    unfolding IsSettled
    IsSettled-nothing A e h p = inl p

    IsSettled-threads :
        (A : Type 0) (e : Error) (h : Heap)
        → h ≡ heap (threads ∷ base) faults
        → IsSettled base faults {A = A} (failed e h)
    unfolding IsSettled
    IsSettled-threads A e h p = inr (inl p)

    IsSettled-page_table :
        (A : Type 0) (e : Error) (h : Heap)
        → h ≡ heap (page_table ∷ base) faults
        → IsSettled base faults {A = A} (failed e h)
    unfolding IsSettled
    IsSettled-page_table A e h p = inr (inr p)

    try-IsSettled :
        {A : Type 0} (b : Block) (frees : List Block) (h : Heap) (k : Heap → Made A)
        → IsSettled base faults {A = A} (failed enomem_internal (release_all frees h))
        → IsSettled base faults (k (take_block b h))
        → IsSettled base faults (try grants b frees h k)
    unfolding try
    try-IsSettled b frees h k f g = elim (Bool-cases (grants b)) [ inl e ↦ rw e g | inr e ↦ rw e f ]

    on_null-IsSettled :
        {X A : Type 0} (r : Option X) (m : Made A) (k : X → Made A)
        → IsSettled base faults m
        → ((x : X) → IsSettled base faults (k x))
        → IsSettled base faults (on_null r m k)
    unfolding on_null
    on_null-IsSettled none m k f g = f
    on_null-IsSettled (some x) m k f g = g x

    made-IsSettled :
        {A : Type 0} (a : A) (h : Heap)
        → h ≡ heap (complete ++ base) faults
        → IsSettled base faults (made a h)
    unfolding IsSettled
    made-IsSettled a h p = p

    pub create_blocks-IsSettled :
        grants threads ≡ true
        → grants pq_input_buffer ≡ true
        → grants temp_processes ≡ true
        → IsSettled base faults (create_blocks creating grants (heap base faults))
    unfolding create_blocks ask release_all free_block remove released touch
    create_blocks-IsSettled t p q =
        rw (t, p, q)
          (try-IsSettled process_block [] _ _ (IsSettled-nothing _ _ _ refl) (
            try-IsSettled fds frees_process _ _ (IsSettled-nothing _ _ _ refl) (
              on_null-IsSettled creating.create_pml4 _ _ (IsSettled-threads _ _ _ refl) (λ mem.
                (try-IsSettled futexes frees_threads _ _ (IsSettled-page_table _ _ _ refl) (
                  try-IsSettled input_buffer frees_futexes _ _ (IsSettled-page_table _ _ _ refl) (
                    try-IsSettled blocked_wait_messages frees_pq_input _ _
                      (IsSettled-page_table _ _ _ refl)
                      (try-IsSettled main_thread frees_temp _ _ (IsSettled-page_table _ _ _ refl) (
                        try-IsSettled continuation frees_thread _ _
                          (IsSettled-page_table _ _ _ refl)
                          (try-IsSettled futex_block frees_continuation _ _
                            (IsSettled-page_table _ _ _ refl) (made-IsSettled _ _ refl)))))))))))

    -- A failure after the blocks are complete frees every block but the page table.
    undo-IsSettled :
        {A : Type 0} (m : Made A) (h : Heap)
        → h ≡ heap (complete ++ base) faults
        → Keeps h m
        → IsSettled base faults (or_undo (release_all frees_all) m)
    unfolding Keeps or_undo IsSettled release_all free_block remove released
    undo-IsSettled (made a h') h e k = rw (k, e)
    undo-IsSettled (failed x h') h e k = inr (inr (rw (k, e)))
    undo-IsSettled faulted h e k = tt

    pub build_user-IsSettled :
        (program : Program) (argv envp : List (List ℕ)) (mem : creating.Mem) (h : Heap)
        → h ≡ heap (complete ++ base) faults
        → IsSettled base faults (
            or_undo
              (release_all frees_all)
              (build_user creating grants area_ok random program argv envp mem h))
    build_user-IsSettled program argv envp mem h e =
        undo-IsSettled _ h e
          (build_user-Keeps creating grants area_ok random program argv envp mem h)
