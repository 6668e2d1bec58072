-- ===== src/Cpus/Ipi.antt =====
-- Messages between processors (src/kernel/cpus/ipi.c). `ipi_received` is what a processor does with its
-- message; the senders and the receiving side of a processor are a step relation, whose steps are what
-- the code does between the points where they can meet.
pub mod Delivered
mod Tests
use cthulhu_os.Prelude.{
  ℕ, zero, suc, ◌+◌, ◌/◌, ◌≡◌, Bool, true, false, not, ◌&&◌, Option, none, some, List, [], ◌∷◌,
  ◌++◌, ◌==◌, if◌then◌else◌, add64,
}

-- `apic_message_type` and the three words of a message.
pub record Message : Type 0 where
  pub message_type : ℕ
  pub message : ℕ
  pub message2 : ℕ
  pub message3 : ℕ

-- What `ipi_received` works on: `apic_message_handled`, rax of the interrupted code, the register cr3,
-- the addresses that were invalidated and the counter of the shootdown. `scheduled` counts the calls of
-- `schedule`, `reloaded` those of `set_active_page`.
pub record Receiver : Type 0 where
  pub handled : Bool
  pub rax : ℕ
  pub active_page : ℕ
  pub invalidated : List ℕ
  pub tlb_shootdown_counter : ℕ
  pub scheduled : ℕ
  pub reloaded : ℕ

-- How the handler ends: with a stopped processor, in the wait for the end of the shootdown, or done.
pub data Received : Type 0 where
  halted : Receiver → Received
  waits : Receiver → Received
  done : Receiver → Received

-- The addresses from `i` on in steps of a page.
unfoldable pub pages_from : ℕ → ℕ → List ℕ
pages_from i zero = []
pages_from i (suc n) = i ∷ pages_from (add64 i 0x1000) n

-- `IPI_INVALIDATE_PAGE`: `pages` is the number of rounds; a processor that has not started the
-- shootdown waits until the counter is 0.
unfoldable pub invalidate_page : Bool → ℕ → Message → Receiver → Received
unfolding pages_from
invalidate_page initiator pages msg r =
    let counted = record r { tlb_shootdown_counter = add64 r.tlb_shootdown_counter 1 } in
    let cleared = record counted { invalidated = r.invalidated ++ pages_from msg.message pages } in
    if r.active_page == msg.message3
    then (if initiator then done (record cleared { handled = false }) else waits cleared)
    else done (record counted { handled = false })

-- The types are 0 to 4: `IPI_HALT_IMMEDIATELLY`, `IPI_WAKE_UP_FROM_WUA`, `IPI_INVALIDATE_PAGE`,
-- `IPI_INVLD_PML` and `IPI_RUN_SCHEDULER`.
unfoldable pub ipi_received : Bool → ℕ → Message → Receiver → Received
unfolding invalidate_page
ipi_received initiator pages msg r =
    let over = record r { handled = false } in
    let t = msg.message_type in
    if t == 0
    then halted over
    else if t == 1
    then done (record over { rax = msg.message })
    else if t == 2
    then invalidate_page initiator pages msg r
    else if t == 3
    then done
        (if r.active_page == msg.message then record over { reloaded = r.reloaded + 1 } else over)
    else if t == 4
    then done (record over { scheduled = r.scheduled + 1 })
    else done over

-- Where the sender that holds `__ipi_lock` is; `hasty` and `scribbled` are of `send_ipi_nowait`.
pub data Phase : Type 0 where
  free : Phase
  locked announced written waiting : Message → Phase
  hasty scribbled : Message → Phase

-- The fields of the receiving `cpu_t`, and who is where: `pending` is an interrupt that was sent and not
-- taken, `handling` a handler that has not cleared `apic_message_handled`. `delivered` are the messages
-- that the handler has read, `finished` those whose sender has gone on.
pub record Channel : Type 0 where
  pub phase : Phase
  pub apic_message_handled : Bool
  pub fields : Message
  pub pending : Bool
  pub handling : Bool
  pub delivered : List Message
  pub finished : List Message

-- A step of `send_ipi_message`, of the interrupt in the receiver (`clear` is also the early clearing of
-- a processor that stops), of a processor's message to itself, which its handler gets before the lock is
-- free, or, where `nowait` is true, of `send_ipi_nowait`.
pub data Step (nowait : Bool) : Channel → Channel → Type 0 where
  lock :
      (s : Channel) (m : Message) → s.phase ≡ free → Step nowait s (record s { phase = locked m })
  announce :
      (s : Channel) (m : Message)
      → s.phase ≡ locked m
      → Step nowait s (record s { phase = announced m; apic_message_handled = true })
  write :
      (s : Channel) (m : Message)
      → s.phase ≡ announced m
      → Step nowait s (record s { phase = written m; fields = m })
  send :
      (s : Channel) (m : Message)
      → s.phase ≡ written m
      → Step nowait s (record s { phase = waiting m; pending = true })
  receive :
      (s : Channel)
      → s.pending ≡ true
      → Step nowait s (record s {
        pending = false;
        handling = true;
        delivered = s.delivered ++ (s.fields ∷ []);
      })
  clear :
      (s : Channel)
      → s.handling ≡ true
      → Step nowait s (record s { handling = false; apic_message_handled = false })
  finish :
      (s : Channel) (m : Message)
      → s.phase ≡ waiting m
      → s.apic_message_handled ≡ false
      → Step nowait s (record s { phase = free; finished = s.finished ++ (m ∷ []) })
  send_self :
      (s : Channel) (m : Message)
      → s.phase ≡ free
      → Step nowait s (record s {
        apic_message_handled = false;
        fields = m;
        delivered = s.delivered ++ (m ∷ []);
        finished = s.finished ++ (m ∷ []);
      })
  hurry :
      (s : Channel) (m : Message)
      → nowait ≡ true
      → s.phase ≡ free
      → Step nowait s (record s { phase = hasty m })
  scribble :
      (s : Channel) (m : Message)
      → s.phase ≡ hasty m
      → Step nowait s (record s { phase = scribbled m; fields = m })
  shoot :
      (s : Channel) (m : Message)
      → s.phase ≡ scribbled m
      → Step nowait s (record s { phase = free; pending = true })

-- The states that some sequence of steps reaches.
pub data Reach (nowait : Bool) (start : Channel) : Channel → Type 0 where
  stay : Reach nowait start start
  step : {s s' : Channel} → Reach nowait start s → Step nowait s s' → Reach nowait start s'

-- A processor that has not got a message yet.
abbrev pub initial : Message → Channel
initial m = record {
  phase = free;
  apic_message_handled = false;
  fields = m;
  pending = false;
  handling = false;
  delivered = [];
  finished = [];
}
