-- ===== src/Process/Scheduler.antt =====
-- The scheduler (src/kernel/processes/scheduler.c): which thread a processor runs next. The local
-- array `queues` of the five `cpu->priority_i` is a list of queues, the most urgent first; a loop
-- over it from `i` on is a recursion on the rest of the list.
pub mod Order
use cthulhu_os.Prelude.{
  ℕ, zero, suc, ◌*◌, ◌%◌, ◌-◌, Bool, true, false, Option, none, some, List, [], ◌∷◌, ltb,
  if◌then◌else◌, add64, u64, length, get_elem?, set,
}
use cthulhu_os.Process.Queues.{Queues}
use mathlib.Core.Option

module _ (queues : Queues) where
  open queues use {Queue, push, pop, size, has_elements}

  -- `do_get_priority_count`: the loop adds `queue_size(queues[i]) * (5-i)`.
  priority_loop : ℕ → ℕ → List Queue → ℕ
  priority_loop count i [] = count
  priority_loop count i (q ∷ qs) = priority_loop (add64 count (size q * (5 - i) % u64)) (suc i) qs

  unfoldable pub do_get_priority_count : List Queue → ℕ
  unfolding priority_loop
  do_get_priority_count qs = priority_loop 0 0 qs

  -- The end of `get_and_update_queue`: `popq` gives its first thread to `pushq`. A NULL would be
  -- pushed as it is; `has_elements` has been asked, so it cannot come.
  hand_over : Queue → Option ℕ → Queue
  hand_over pushq none = push pushq 0
  hand_over pushq (some t) = push pushq t

  -- The loop of `get_and_update_queue` behind `pushq`.
  promote : Queue → List Queue → List Queue
  unfolding hand_over
  promote pushq [] = pushq ∷ []
  promote pushq (tq ∷ rest) =
      let further = promote tq rest in
      if has_elements tq then hand_over pushq (pop tq).0 ∷ (pop tq).1 ∷ rest else pushq ∷ further

  unfoldable pub get_and_update_queue : Queue → List Queue → Option ℕ × List Queue
  unfolding promote
  get_and_update_queue selq rest = ((pop selq).0, promote (pop selq).1 rest)

  unfoldable pub get_and_update_threads : List Queue → Option ℕ × List Queue
  unfolding get_and_update_queue
  get_and_update_threads [] = (none, [])
  get_and_update_threads (tq ∷ rest) =
      let further = get_and_update_threads rest in
      if has_elements tq then get_and_update_queue tq rest else (further.0, tq ∷ further.1)

  -- `queue_push(queues[t->priority], t)`; `none` is an access past the array.
  unfoldable pub enqueue : ℕ → ℕ → List Queue → Option (List Queue)
  enqueue priority t qs = Option.map (λ q. set qs priority (push q t)) (get_elem? qs priority)

  -- The loop of `enschedule_best` over the processors' queues, with `rounds` processors left; the
  -- state is the index of `mincpu` and `priority`. Each round reads `array_get_at(cpus, 0)`.
  best_loop : ℕ → List (List Queue) → ℕ × ℕ → ℕ × ℕ
  unfolding do_get_priority_count
  best_loop zero cpus s = s
  best_loop (suc rounds) cpus (mincpu, priority) =
      let test : ℕ = 0 in
      let np = Option.get_or (Option.map do_get_priority_count (get_elem? cpus test)) 0 in
      best_loop rounds cpus (if ltb np priority then (test, np) else (mincpu, priority))

  unfoldable pub best_cpu : List (List Queue) → ℕ
  unfolding best_loop
  best_cpu cpus =
      let first = Option.get_or (Option.map do_get_priority_count (get_elem? cpus 0)) 0 in
      (best_loop (length cpus - 1) cpus (0, first)).0

  -- `enschedule_best`, for a thread of the given priority; the processors' queues afterwards.
  unfoldable pub enschedule_best : ℕ → ℕ → List (List Queue) → Option (List (List Queue))
  unfolding best_cpu enqueue
  enschedule_best priority t cpus =
      let i = best_cpu cpus in
      Option.map (λ qs. set cpus i qs)
        (Option.bind (get_elem? cpus i) (λ qs. enqueue priority t qs))
