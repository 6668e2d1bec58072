-- ===== src/Syscalls/Messages/Buffers.antt =====
-- Which buffer a process gets, and that sending reports no error
-- (src/kernel/syscalls/syscall_defs.cc).
use cthulhu_os.Prelude.{
  ℕ, ◌≡◌, ◌≢◌, refl, Bool, true, false, not, Option, none, some, List, [], ◌∷◌, ◌++◌, All,
  if◌then◌else◌, arith,
}
use cthulhu_os.Syscalls.Messages.{
  Buffer, take_buffer, get_empty_message, self_message, sys_send_message,
}

abbrev pub InUse : List Buffer → Type 0
InUse bs = All (λ (b : Buffer). b.used ≡ true) bs

-- What the loop has done: nothing, where all buffers are in use, or the first free one is taken and its
-- block cleared.
pub data Taken : List Buffer → Option ℕ × List Buffer → Type 0 where
  all_used : {bs : List Buffer} → InUse bs → Taken bs (none, bs)
  first_free :
      (before after : List Buffer) (b : Buffer)
      → InUse before
      → b.used ≡ false
      → Taken (before ++ (b ∷ after)) (
        some b.message,
        before ++ (record { used = true; message = b.message; bytes = λ i. 0 } ∷ after),
      )

Taken-cons :
    (b : Buffer) (bs : List Buffer) (r : Option ℕ × List Buffer)
    → b.used ≡ true
    → Taken bs r
    → Taken (b ∷ bs) (r.0, b ∷ r.1)
Taken-cons b bs r e (all_used a) = all_used (e, a)
Taken-cons b bs r e (first_free before after b' a f) = first_free (b ∷ before) after b' (e, a) f

take_buffer-Taken : (bs : List Buffer) → Taken bs (take_buffer bs)
unfolding take_buffer
take_buffer-Taken [] = all_used tt
take_buffer-Taken (b ∷ bs) = go (take_buffer-Taken bs) b.used refl
  where
    go :
        Taken bs (take_buffer bs)
        → (u : Bool) → b.used ≡ u
        → Taken (b ∷ bs) (
            if not u
            then (some b.message, record { used = true; message = b.message; bytes = λ i. 0 } ∷ bs)
            else ((take_buffer bs).0, b ∷ (take_buffer bs).1))
    go rest false e = first_free [] bs b tt e
    go rest true e = Taken-cons b bs (take_buffer bs) e rest

-- The answer that goes with what is written to `*mp`.
abbrev pub answer_of : ℕ → Option ℕ → ℕ
answer_of etryagain none = etryagain
answer_of etryagain (some m) = 0

-- With a valid pointer, `get_empty_message` hands out the first buffer that is not in use, marks it and
-- clears its block and answers 0; it answers `ETRYAGAIN` and changes nothing exactly if all are in use.
pub get_empty_message-Taken :
    (einval etryagain : ℕ) (bs : List Buffer)
    → let h = get_empty_message einval etryagain true bs in
      Taken bs (h.mp, h.output_buffer) × (h.answer ≡ answer_of etryagain h.mp)
unfolding get_empty_message
get_empty_message-Taken einval etryagain bs = go (take_buffer bs) (take_buffer-Taken bs) refl
  where
    go :
        (r : Option ℕ × List Buffer)
        → Taken bs r
        → take_buffer bs ≡ r
        → let h = get_empty_message einval etryagain true bs in
          Taken bs (h.mp, h.output_buffer) × (h.answer ≡ answer_of etryagain h.mp)
    go (none, bs') t e = rw e (t, refl)
    go (some m, bs') t e = rw e (t, refl)

-- `sys_send_message` answers 0 and leaves the continuation as it was, whatever the message asks for and
-- whatever becomes of it, if `ENOMEM_INTERNAL` is not 0: the error of `self_message` is lost.
pub sys_send_message-zero :
    (enomem_internal create : ℕ) (valid no_target : Bool) (gps_id error : ℕ) (present : Bool)
    → enomem_internal ≢ 0
    → sys_send_message enomem_internal create valid no_target gps_id error present ≡ (0, present)
unfolding sys_send_message self_message
sys_send_message-zero enomem_internal create valid no_target gps_id error present ne = ground arith
