-- ===== src/Syscalls/Messages.antt =====
-- The system calls on messages (src/kernel/syscalls/syscall_defs.cc: `get_empty_message`,
-- `self_message`, `sys_send_message`). A process has a fixed number of output buffers, each with a
-- message block; the lock `__ob_lock` is taken and given back inside of each call and is not modelled.
pub mod Buffers
use cthulhu_os.Prelude.{
  ℕ, zero, suc, Bool, true, false, not, Option, none, some, List, [], ◌∷◌, ◌==◌, if◌then◌else◌,
}
use mathlib.Core.Option

-- `_message_t`: whether it is used, the address of its block, and the bytes there.
pub record Buffer : Type 0 where
  pub used : Bool
  pub message : ℕ
  pub bytes : ℕ → ℕ

-- The loop of `get_empty_message`: the block that is handed out, and the buffers afterwards.
unfoldable pub take_buffer : List Buffer → Option ℕ × List Buffer
take_buffer [] = (none, [])
take_buffer (b ∷ bs) =
    let rest = take_buffer bs in
    if not b.used
    then (some b.message, record { used = true; message = b.message; bytes = λ i. 0 } ∷ bs)
    else (rest.0, b ∷ rest.1)

-- What `get_empty_message` answers, writes to `*mp` and leaves; `valid` is the check of `mp`.
pub record Handed : Type 0 where
  pub answer : ℕ
  pub mp : Option ℕ
  pub output_buffer : List Buffer

unfoldable pub get_empty_message : ℕ → ℕ → Bool → List Buffer → Handed
unfolding take_buffer
get_empty_message einval etryagain valid output_buffer =
    if not valid
    then record { answer = einval; mp = none; output_buffer = output_buffer }
    else taken (take_buffer output_buffer)
  where
    taken : Option ℕ × List Buffer → Handed
    taken (none, bs) = record { answer = etryagain; mp = none; output_buffer = bs }
    taken (some m, bs) = record { answer = 0; mp = some m; output_buffer = bs }

-- `self_message` for the command `create` (`GMI_PROCESS_CREATE_STAGE_1`); `error` is what `cp_stage_1`
-- answers. The error is returned where it is 0.
unfoldable pub self_message : ℕ → ℕ → ℕ → ℕ
self_message create command error =
    if command == create then (if not (error == 0) then 0 else error) else 0

-- What `sys_send_message` answers, with `c->present` afterwards.
unfoldable pub sys_send_message : ℕ → ℕ → Bool → Bool → ℕ → ℕ → Bool → ℕ × Bool
unfolding self_message
sys_send_message enomem_internal create valid no_target gps_id error present =
    let retval = if no_target then self_message create gps_id error else 0 in
    if not valid
    then (0, present)
    else if retval == enomem_internal
    then (enomem_internal, true)
    else (0, present)
