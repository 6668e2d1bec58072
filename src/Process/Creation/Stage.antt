-- ===== src/Process/Creation/Stage.antt =====
-- `cp_stage_1` (src/kernel/processes/process.c): a process in construction that another process asks
-- for. The kernel's blocks are those of the parent module. A return value of 0 is `none`. The jump
-- to `handle_mem_error` before `process` is set reads a pointer that has no value: `undefined`.
use cthulhu_os.Prelude.{
  ℕ, suc, Bool, true, false, not, ◌&&◌, Option, none, some, List, [], ◌∷◌, ◌++◌, ltb, leb,
  if◌then◌else◌,
}
use cthulhu_os.Process.Creation.{
  Block, process_block, fds, threads, futexes, input_buffer, pq_input_buffer, blocked_wait_messages,
  temp_processes, temp_proc, Heap, take_block, remove, free_block, Error, enomem_internal, einval,
  ask,
}

-- `cp_stage1`; `priority` is the byte of an `int8_t`.
pub record CpStage1 : Type 0 where
  pub parent : Bool
  pub privilege : Bool
  pub priority : ℕ

-- What the process in construction takes from the caller `cp` and the request.
pub record TempProc : Type 0 where
  pub proc_id : ℕ
  pub pprocess : Bool
  pub has_parent : Bool
  pub priority : ℕ

-- The kernel's side: the blocks, the counter, the keys of the table `temp_processes` and the list
-- `cp->temp_processes`.
pub record Stage : Type 0 where
  pub heap : Heap
  pub process_id_num : ℕ
  pub table : List ℕ
  pub children : List TempProc

pub data Staged : Type 0 where
  returned : Option Error → Stage → Staged
  undefined : Staged

-- `if (p != NULL) free(p)` for a pointer that is a block in use or NULL.
unfoldable pub unless_null : Heap → Option (List Block) → Heap
unless_null h none = h
unless_null h (some xs) = record h { live = xs }

unfoldable pub free_unless_null : List Block → Heap → Heap
unfolding remove unless_null
free_unless_null [] h = h
free_unless_null (b ∷ bs) h = free_unless_null bs (unless_null h (remove b h.live))

-- The label `handle_mem_error`: `process->...` is read only where `process` is not NULL.
abbrev pub stage_fields : List Block
stage_fields =
    fds ∷ threads ∷ futexes ∷ input_buffer ∷ pq_input_buffer ∷ blocked_wait_messages
    ∷ temp_processes ∷ process_block ∷ []

unfoldable pub handle_mem_error : Bool → Option Error → Stage → Staged
unfolding free_block free_unless_null
handle_mem_error has_process error s =
    let h = free_block temp_proc s.heap in
    returned error (record s { heap = if has_process then free_unless_null stage_fields h else h })

-- A negative priority is the caller's; `none` is EINVAL.
unfoldable pub stage_priority : ℕ → ℕ → Option ℕ
stage_priority cp_priority p =
    if leb 128 p then some cp_priority else if ltb 4 p then none else some p

module _ (grants : Block → Bool) where
  -- `p = ...; if (p == NULL) { error = ...; goto handle_mem_error; }`
  unfoldable pub try_stage : Block → Option Error → Stage → (Stage → Staged) → Staged
  unfolding handle_mem_error
  try_stage b error s k =
      if grants b
      then k (record s { heap = take_block b s.heap })
      else handle_mem_error true error s

  abbrev pub ask_stage : Block → Stage → Stage
  ask_stage b s = record s { heap = ask grants b s.heap }

  -- The number is taken before the table is asked; `table_ok` is whether `table_set` has the memory.
  unfoldable pub register_stage : Bool → TempProc → Stage → Staged
  register_stage table_ok p s =
      let numbered : Stage = record s { process_id_num = suc s.process_id_num } in
      if table_ok
      then returned none (record numbered {
        table = s.table ++ (suc s.process_id_num ∷ []);
        children = s.children ++ (p ∷ []);
      })
      else handle_mem_error true (some enomem_internal) numbered

  unfoldable pub stage_buffers : Bool → TempProc → Stage → Staged
  unfolding ask
  stage_buffers table_ok p s = try_stage futexes (some enomem_internal) s (λ s1.
      try_stage input_buffer (some enomem_internal) s1 (λ s2.
        try_stage blocked_wait_messages (some enomem_internal) (ask_stage pq_input_buffer s2)
          (λ s3. register_stage table_ok p (ask_stage temp_processes s3))))

  unfoldable pub with_priority : Option ℕ → Stage → (ℕ → Staged) → Staged
  unfolding handle_mem_error
  with_priority none s k = handle_mem_error true (some einval) s
  with_priority (some p) s k = k p

  unfoldable pub stage_process : Bool → Bool → ℕ → CpStage1 → Stage → Staged
  unfolding ask
  stage_process table_ok pprocess priority request s = try_stage fds none s (λ s1.
      let s2 : Stage = ask_stage threads s1 in
      with_priority (stage_priority priority request.priority) s2 (λ p.
        stage_buffers table_ok
          (record {
            proc_id = suc s.process_id_num;
            pprocess = request.privilege && pprocess;
            has_parent = request.parent;
            priority = p;
          })
          s2))

  -- `pprocess` and `priority` are the caller's. `*process_num` is 0 in every case.
  unfoldable pub cp_stage_1 : Bool → Bool → ℕ → CpStage1 → Stage → Staged
  cp_stage_1 table_ok pprocess priority request s =
      let s1 : Stage = record s { heap = take_block temp_proc s.heap } in
      let s2 : Stage = record s1 { heap = take_block process_block s1.heap } in
      if not (grants temp_proc)
      then undefined
      else if not (grants process_block)
      then handle_mem_error false none s1
      else stage_process table_ok pprocess priority request s2
