-- ===== src/Process/Creation/Cleanup.antt =====
-- What `cp_stage_1` (src/kernel/processes/process.c) leaves in use of what it took.
use cthulhu_os.Prelude.{
  ℕ, suc, ◌≤◌, ◌≡◌, refl, sym, leb, ltb, arith, ◌⊎◌, inl, inr, Bool, true, false, Option, none,
  some, List, [], ◌∷◌, ◌++◌, Bool-cases,
}
use mathlib.Core.Option.{some-injective, some-ne-none}
use cthulhu_os.Process.Creation.{
  Block, process_block, fds, threads, futexes, input_buffer, pq_input_buffer, blocked_wait_messages,
  temp_processes, temp_proc, remove, released, free_block, Error, enomem_internal, einval, ask,
}
use cthulhu_os.Process.Creation.Blocks.{heap}
use cthulhu_os.Process.Creation.Stage.{
  CpStage1, TempProc, Stage, Staged, returned, undefined, unless_null, free_unless_null,
  handle_mem_error, try_stage, register_stage, stage_buffers, with_priority, stage_priority,
  stage_process, cp_stage_1,
}

-- The priority of the new process: the caller's where a negative one (a byte from 128 on) is asked for,
-- and else the one asked for, which is one of the five.
pub data IsPriority (callers asked : ℕ) : ℕ → Type 0 where
  inherited : 128 ≤ asked → IsPriority callers asked callers
  chosen : asked ≤ 4 → IsPriority callers asked asked

stage_priority-IsPriority :
    (callers asked p : ℕ) → stage_priority callers asked ≡ some p → IsPriority callers asked p
unfolding stage_priority
stage_priority-IsPriority callers asked p e = elim (Bool-cases (leb 128 asked)) [
  | inl a ↦ rw (← some-injective _ _ (rw a at e)) (inherited (ground arith))
  | inr a ↦ elim (Bool-cases (ltb 4 asked)) [
    | inl b ↦ absurd (some-ne-none p (sym (rw (a, b) at e)))
    | inr b ↦ rw (← some-injective _ _ (rw (a, b) at e)) (chosen (ground arith))
  ]
]

-- A block where the request for it was met.
abbrev pub if_granted : Bool → Block → List Block → List Block
if_granted true b bs = b ∷ bs
if_granted false b bs = bs

ask-if_granted :
    (grants : Block → Bool) (b : Block) (live faults : List Block)
    → ask grants b (heap live faults) ≡ heap (if_granted (grants b) b live) faults
unfolding ask
ask-if_granted grants b live faults = elim (Bool-cases (grants b)) [ inl e ↦ rw e | inr e ↦ rw e ]

-- The blocks of a process in construction, as far as it has come.
abbrev pub begun : Bool → List Block
begun t = if_granted t threads (fds ∷ process_block ∷ temp_proc ∷ [])

abbrev pub buffered : Bool → Bool → List Block
buffered t p = if_granted p pq_input_buffer (input_buffer ∷ futexes ∷ begun t)

abbrev pub constructed : Bool → Bool → Bool → List Block
constructed t p q = if_granted q temp_processes (blocked_wait_messages ∷ buffered t p)

-- The label frees every block that was taken, whichever of the requests were met.
IsClearable : Stage → Type 0
IsClearable s =
    (error : Option Error)
    → handle_mem_error true error s ≡ returned error (record s { heap = heap [] [] })

abbrev pub at_heap : List Block → Stage → Stage
at_heap live s = record s { heap = heap live [] }

IsClearable-process : (s : Stage) → IsClearable (at_heap (process_block ∷ temp_proc ∷ []) s)
unfolding IsClearable handle_mem_error free_block remove released free_unless_null unless_null
IsClearable-process s error = refl

IsClearable-begun : (t : Bool) (s : Stage) → IsClearable (at_heap (begun t) s)
unfolding IsClearable handle_mem_error free_block remove released free_unless_null unless_null
IsClearable-begun true s error = refl
IsClearable-begun false s error = refl

IsClearable-futexes : (t : Bool) (s : Stage) → IsClearable (at_heap (futexes ∷ begun t) s)
unfolding IsClearable handle_mem_error free_block remove released free_unless_null unless_null
IsClearable-futexes true s error = refl
IsClearable-futexes false s error = refl

IsClearable-buffered : (t p : Bool) (s : Stage) → IsClearable (at_heap (buffered t p) s)
unfolding IsClearable handle_mem_error free_block remove released free_unless_null unless_null
IsClearable-buffered true true s error = refl
IsClearable-buffered true false s error = refl
IsClearable-buffered false true s error = refl
IsClearable-buffered false false s error = refl

IsClearable-constructed : (t p q : Bool) (s : Stage) → IsClearable (at_heap (constructed t p q) s)
unfolding IsClearable handle_mem_error free_block remove released free_unless_null unless_null
IsClearable-constructed true true true s error = refl
IsClearable-constructed true true false s error = refl
IsClearable-constructed true false true s error = refl
IsClearable-constructed true false false s error = refl
IsClearable-constructed false true true s error = refl
IsClearable-constructed false true false s error = refl
IsClearable-constructed false false true s error = refl
IsClearable-constructed false false false s error = refl

-- `cp` is the caller's priority.
module _ (grants : Block → Bool) (priority : ℕ) (request : CpStage1) (s : Stage) where
  -- A process in construction is known under the next number, with every block that was granted, and
  -- with a priority that is the caller's or the one asked for, at most 4. Otherwise nothing is in use
  -- and nothing is registered; the number may be spent where an error is returned.
  unfoldable pub IsCleaned : Staged → Type 0
  IsCleaned undefined = grants temp_proc ≡ false
  IsCleaned (returned (some e) s') =
      (s' ≡ at_heap [] s) ⊎ (s' ≡ record (at_heap [] s) { process_id_num = suc s.process_id_num })
  IsCleaned (returned none s') =
      (s' ≡ at_heap [] s)
      ⊎ ((p : TempProc) × (p.proc_id ≡ suc s.process_id_num)
          × IsPriority priority request.priority p.priority
          × (s' ≡ record {
            heap =
                heap (constructed (grants threads) (grants pq_input_buffer) (grants temp_processes))
                  [];
            process_id_num = suc s.process_id_num;
            table = s.table ++ (suc s.process_id_num ∷ []);
            children = s.children ++ (p ∷ []);
          }))

  unless_null-IsCleaned : (error : Option Error) → IsCleaned (returned error (at_heap [] s))
  unfolding IsCleaned
  unless_null-IsCleaned none = inl refl
  unless_null-IsCleaned (some e) = inl refl

  spent-IsCleaned :
      (e : Error)
      → IsCleaned
          (returned (some e) (record (at_heap [] s) { process_id_num = suc s.process_id_num }))
  unfolding IsCleaned
  spent-IsCleaned e = inr refl

  made-IsCleaned :
      (p : TempProc)
      → p.proc_id ≡ suc s.process_id_num
      → IsPriority priority request.priority p.priority
      → IsCleaned (
          returned none (record {
            heap =
                heap
                  (constructed (grants threads) (grants pq_input_buffer) (grants temp_processes))
                  [];
            process_id_num = suc s.process_id_num;
            table = s.table ++ (suc s.process_id_num ∷ []);
            children = s.children ++ (p ∷ []);
          }))
  unfolding IsCleaned
  made-IsCleaned p e f = inr (p, e, f, refl)

  error-IsCleaned :
      (live : List Block) (error : Option Error)
      → IsClearable (at_heap live s)
      → IsCleaned (handle_mem_error true error (at_heap live s))
  unfolding IsClearable
  error-IsCleaned live error c = rw (c error) (unless_null-IsCleaned error)

  try_stage-IsCleaned :
      (b : Block) (live : List Block) (error : Option Error) (k : Stage → Staged)
      → IsClearable (at_heap live s)
      → IsCleaned (k (at_heap (b ∷ live) s))
      → IsCleaned (try_stage grants b error (at_heap live s) k)
  unfolding try_stage
  try_stage-IsCleaned b live error k c d = elim (Bool-cases (grants b)) [
    | inl e ↦ rw e d
    | inr e ↦ rw e (error-IsCleaned live error c)
  ]

  register-IsCleaned :
      (table_ok : Bool) (p : TempProc)
      → p.proc_id ≡ suc s.process_id_num
      → IsPriority priority request.priority p.priority
      → IsCleaned (
          register_stage grants table_ok p (
            at_heap
              (constructed (grants threads) (grants pq_input_buffer) (grants temp_processes))
              s))
  unfolding register_stage IsClearable
  register-IsCleaned true p e f = made-IsCleaned p e f
  register-IsCleaned false p e f =
      rw
        (IsClearable-constructed (grants threads) (grants pq_input_buffer) (grants temp_processes)
          (record s { process_id_num = suc s.process_id_num }) (some enomem_internal))
        (spent-IsCleaned enomem_internal)

  buffers-IsCleaned :
      (table_ok : Bool) (p : TempProc)
      → p.proc_id ≡ suc s.process_id_num
      → IsPriority priority request.priority p.priority
      → IsCleaned (stage_buffers grants table_ok p (at_heap (begun (grants threads)) s))
  unfolding stage_buffers
  buffers-IsCleaned table_ok p e f =
      let t : Bool = grants threads in
      let q : Bool = grants pq_input_buffer in
      try_stage-IsCleaned futexes _ _ _ (IsClearable-begun t s) (
        try_stage-IsCleaned input_buffer _ _ _ (IsClearable-futexes t s) (
          rw (ask-if_granted grants pq_input_buffer _ []) (
            try_stage-IsCleaned blocked_wait_messages _ _ _ (IsClearable-buffered t q s) (
              rw (ask-if_granted grants temp_processes _ []) (register-IsCleaned table_ok p e f)))))

  undefined-IsCleaned : grants temp_proc ≡ false → IsCleaned undefined
  unfolding IsCleaned
  undefined-IsCleaned e = e

  no_process-IsCleaned : IsCleaned (handle_mem_error false none (at_heap (temp_proc ∷ []) s))
  unfolding IsCleaned handle_mem_error free_block remove released
  no_process-IsCleaned = inl refl

  priority-IsCleaned :
      (r : Option ℕ) (k : ℕ → Staged)
      → ((p : ℕ) → r ≡ some p → IsCleaned (k p))
      → IsCleaned (with_priority grants r (at_heap (begun (grants threads)) s) k)
  unfolding with_priority
  priority-IsCleaned none k f =
      error-IsCleaned (begun (grants threads)) (some einval) (IsClearable-begun (grants threads) s)
  priority-IsCleaned (some p) k f = f p refl

  process-IsCleaned :
      (table_ok pprocess : Bool)
      → IsCleaned (
          stage_process grants table_ok pprocess priority request
            (at_heap (process_block ∷ temp_proc ∷ []) s))
  unfolding stage_process
  process-IsCleaned table_ok pprocess = try_stage-IsCleaned fds _ _ _ (IsClearable-process s) (
      rw (ask-if_granted grants threads _ []) (
        priority-IsCleaned _ _ (λ p e.
          buffers-IsCleaned table_ok _ refl
            (stage_priority-IsPriority priority request.priority p e))))

  -- From an empty heap, `cp_stage_1` either registers a process in construction with the next number,
  -- the caller's priority or one of the five that was asked for, and every block that was granted, or leaves no block in use and registers nothing, where the
  -- number may be spent if it returns an error. Only where its first allocation fails does it run
  -- into the pointer without a value.
  pub cp_stage_1-IsCleaned :
      (table_ok pprocess : Bool)
      → IsCleaned (cp_stage_1 grants table_ok pprocess priority request (at_heap [] s))
  unfolding cp_stage_1
  cp_stage_1-IsCleaned table_ok pprocess = elim (Bool-cases (grants temp_proc)) [
    | inr e ↦ rw e (undefined-IsCleaned e)
    | inl e ↦ elim (Bool-cases (grants process_block)) [
      | inr f ↦ rw (e, f) (no_process-IsCleaned)
      | inl f ↦ rw (e, f) (process-IsCleaned table_ok pprocess)
    ]
  ]
