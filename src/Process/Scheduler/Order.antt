-- ===== src/Process/Scheduler/Order.antt =====
-- The order in which threads run: the five queues are one, each standing behind the more urgent
-- ones, and `get_and_update_threads` takes from its front.
use cthulhu_os.Prelude.{
  ℕ, zero, suc, ◌+◌, ◌*◌, ◌-◌, ◌%◌, ◌<◌, ◌≡◌, refl, sym, ◌⊎◌, inl, inr, ◌↔◌, ap, ◌∙◌, Option, none,
  some, List, [], ◌∷◌, ◌++◌, arith, add64, u64, length, length-append,
}
use cthulhu_os.Process.Queues.{Queues, pop_front}
use cthulhu_os.Process.Scheduler.{
  priority_loop, do_get_priority_count, hand_over, promote, get_and_update_queue,
  get_and_update_threads, best_loop, best_cpu,
}
use mathlib.Core.List.{append_assoc}

module _ (queues : Queues) where
  open queues use {
    Queue, items, push, pop, size, has_elements, items-push, pop-items, items-pop, size-items,
    has_elements-items,
  }

  -- The threads in the order of the queues.
  abbrev pub waiting : List Queue → List ℕ
  waiting [] = []
  waiting (q ∷ qs) = items q ++ waiting qs

  front : (q : Queue) → (items q ≡ []) ⊎ ((t : ℕ) × (ts : List ℕ) × (items q ≡ t ∷ ts))
  front q = go (items q) refl
    where
      go :
          (xs : List ℕ)
          → items q ≡ xs
          → (items q ≡ []) ⊎ ((t : ℕ) × (ts : List ℕ) × (items q ≡ t ∷ ts))
      go [] e = inl e
      go (t ∷ ts) e = inr (t, ts, e)

  promote-skip :
      (pushq tq : Queue) (rest : List Queue)
      → items tq ≡ []
      → promote queues pushq (tq ∷ rest) ≡ pushq ∷ promote queues tq rest
  unfolding promote
  promote-skip pushq tq rest e = rw (has_elements-items tq, e)

  promote-take :
      (pushq tq : Queue) (rest : List Queue) {t : ℕ} {ts : List ℕ}
      → items tq ≡ t ∷ ts
      → promote queues pushq (tq ∷ rest) ≡ push pushq t ∷ (pop tq).1 ∷ rest
  unfolding promote hand_over
  promote-take pushq tq rest e = rw (has_elements-items tq, pop-items tq, e)

  promote-nil : (q : Queue) → waiting (promote queues q []) ≡ items q ++ []
  unfolding promote
  promote-nil q = refl

  waiting-promote :
      (pushq : Queue) (rest : List Queue)
      → waiting (promote queues pushq rest) ≡ items pushq ++ waiting rest
  waiting-promote pushq [] = promote-nil pushq
  waiting-promote pushq (tq ∷ rest) = elim (front tq) [
    | inl e ↦ rw (promote-skip pushq tq rest e) (rw (waiting-promote tq rest))
    | inr (t, ts, e) ↦
        rw (promote-take pushq tq rest e) (rw (items-push, items-pop, e, append_assoc))
  ]

  select-skip :
      (tq : Queue) (rest : List Queue)
      → items tq ≡ []
      → get_and_update_threads queues (tq ∷ rest)
        ≡ ((get_and_update_threads queues rest).0, tq ∷ (get_and_update_threads queues rest).1)
  unfolding get_and_update_threads
  select-skip tq rest e = rw (has_elements-items tq, e)

  select-take :
      (tq : Queue) (rest : List Queue) {t : ℕ} {ts : List ℕ}
      → items tq ≡ t ∷ ts
      → get_and_update_threads queues (tq ∷ rest) ≡ (some t, promote queues (pop tq).1 rest)
  unfolding get_and_update_threads get_and_update_queue
  select-take tq rest e = rw (has_elements-items tq, e, pop-items tq, e)

  -- `get_and_update_threads` takes the first of the threads in the order of the queues, and moving
  -- threads up to more urgent queues leaves the order of the others as it is; it returns NULL exactly
  -- if no thread waits.
  pub get_and_update_threads-waiting :
      (qs : List Queue)
      → ((get_and_update_threads queues qs).0 ≡ (pop_front (waiting qs)).0)
        × (waiting (get_and_update_threads queues qs).1 ≡ (pop_front (waiting qs)).1)
  get_and_update_threads-waiting [] = unfold get_and_update_threads in (refl, refl)
  get_and_update_threads-waiting (tq ∷ rest) = elim (front tq) [
    | inl e ↦ rw (select-skip tq rest e, e) (get_and_update_threads-waiting rest)
    | inr (t, ts, e) ↦ rw (select-take tq rest e, waiting-promote, items-pop, e) (refl, refl)
  ]

  length-promote :
      (q : Queue) (rest : List Queue) → length (promote queues q rest) ≡ suc (length rest)
  unfolding promote
  length-promote q [] = refl
  length-promote q (tq ∷ rest) = ground (arith, length-promote tq rest)

  pub length-select : (qs : List Queue) → length (get_and_update_threads queues qs).1 ≡ length qs
  unfolding get_and_update_threads get_and_update_queue
  length-select [] = refl
  length-select (tq ∷ rest) = ground (arith, length-select rest, length-promote (pop tq).1 rest)

  -- One selection after another, until a selection is NULL.
  abbrev pub then_select : Option ℕ → List ℕ → List ℕ
  then_select none later = []
  then_select (some t) later = t ∷ later

  pub select : ℕ → List Queue → List ℕ
  select zero qs = []
  select (suc n) qs =
      then_select (get_and_update_threads queues qs).0
        (select n (get_and_update_threads queues qs).1)

  abbrev pub take_front : ℕ → List ℕ → List ℕ
  take_front zero ts = []
  take_front (suc n) [] = []
  take_front (suc n) (t ∷ ts) = t ∷ take_front n ts

  -- `n` selections with no thread added in between return the first `n` waiting threads in the order
  -- of the queues: none is passed over for good, however the threads move up.
  pub select-waiting : (n : ℕ) (qs : List Queue) → select n qs ≡ take_front n (waiting qs)
  select-waiting zero qs = unfold select in refl
  select-waiting (suc n) qs =
      step (waiting qs) (get_and_update_threads-waiting qs)
        (select-waiting n (get_and_update_threads queues qs).1)
    where
      step :
          (w : List ℕ)
          → ((get_and_update_threads queues qs).0 ≡ (pop_front w).0)
            × (waiting (get_and_update_threads queues qs).1 ≡ (pop_front w).1)
          → select n (get_and_update_threads queues qs).1
            ≡ take_front n (waiting (get_and_update_threads queues qs).1)
          → select (suc n) qs ≡ take_front (suc n) w
      step [] e ih =
          unfold select in
          ap (λ o. then_select o (select n (get_and_update_threads queues qs).1)) e.0
      step (t ∷ ts) e ih =
          unfold select in
          ap (λ o. then_select o (select n (get_and_update_threads queues qs).1)) e.0
          ∙ ap (λ l. t ∷ l) (ih ∙ ap (take_front n) e.1)

  -- The sum of the sizes of the queues, each weighed by its urgency from `5 - i` on.
  abbrev pub weight : ℕ → List Queue → ℕ
  weight i [] = 0
  weight i (q ∷ qs) = length (items q) * (5 - i) + weight (suc i) qs

  priority_loop-weight :
      (count i : ℕ) (qs : List Queue)
      → count + weight i qs < u64
      → priority_loop queues count i qs ≡ count + weight i qs
  unfolding priority_loop
  priority_loop-weight count i [] h = omega arith
  priority_loop-weight count i (q ∷ qs) h =
      let e : add64 count (size q * (5 - i) % u64) ≡ count + length (items q) * (5 - i) =
        rw (size-items q) (omega arith) in
      rw e (
        priority_loop-weight (count + length (items q) * (5 - i)) (suc i) qs (omega arith)
        ∙ omega arith)

  nil_of_length : (ts : List ℕ) → length ts ≡ 0 → ts ≡ []
  nil_of_length [] e = refl
  nil_of_length (t ∷ ts) e = absurd (omega arith)

  length-waiting :
      (p0 p1 p2 p3 p4 : Queue)
      → length (waiting (p0 ∷ p1 ∷ p2 ∷ p3 ∷ p4 ∷ []))
        ≡ length (items p0)
          + length (items p1)
          + length (items p2)
          + length (items p3)
          + length (items p4)
  length-waiting p0 p1 p2 p3 p4 =
      rw (length-append, length-append, length-append, length-append, length-append) (omega arith)

  weight-nil : (i : ℕ) (qs : List Queue) → waiting qs ≡ [] → weight i qs ≡ 0
  weight-nil i [] e = refl
  weight-nil i (q ∷ qs) e =
      let n : length (items q) + length (waiting qs) ≡ 0 =
        sym (length-append (items q) (waiting qs)) ∙ ap length e in
      let z : length (items q) ≡ 0 = omega arith in
      rw z (omega (arith, weight-nil (suc i) qs (nil_of_length (waiting qs) (omega arith))))

  -- Empty queues count 0.
  pub do_get_priority_count-nil :
      (qs : List Queue) → waiting qs ≡ [] → do_get_priority_count queues qs ≡ 0
  unfolding do_get_priority_count
  do_get_priority_count-nil qs e =
      let w = weight-nil 0 qs e in priority_loop-weight 0 0 qs (omega arith) ∙ omega arith

  -- Unless the weighted sum of the queues' sizes overflows 64 bits, `do_get_priority_count` is that
  -- sum, and it is 0 exactly if no thread waits in the five queues.
  pub do_get_priority_count-weight :
      (p0 p1 p2 p3 p4 : Queue)
      → let qs : List Queue = p0 ∷ p1 ∷ p2 ∷ p3 ∷ p4 ∷ [] in
        weight 0 qs < u64
        → (do_get_priority_count queues qs ≡ weight 0 qs)
          × ((do_get_priority_count queues qs ≡ 0) ↔ (waiting qs ≡ []))
  unfolding do_get_priority_count
  do_get_priority_count-weight p0 p1 p2 p3 p4 h =
      let e = priority_loop-weight 0 0 (p0 ∷ p1 ∷ p2 ∷ p3 ∷ p4 ∷ []) (omega arith) in
      let n = length-waiting p0 p1 p2 p3 p4 in
      (
        omega arith,
        (
          (λ z. nil_of_length (waiting (p0 ∷ p1 ∷ p2 ∷ p3 ∷ p4 ∷ [])) (omega arith)),
          (λ z. let l = ap length z in omega arith),
        ),
      )

best_loop-zero :
    (queues : Queues) (rounds : ℕ) (cpus : List (List queues.Queue)) (s : ℕ × ℕ)
    → s.0 ≡ 0
    → (best_loop queues rounds cpus s).0 ≡ 0
unfolding best_loop
best_loop-zero queues zero cpus s e = e
best_loop-zero queues (suc rounds) cpus (mincpu, priority) e =
    best_loop-zero queues rounds cpus _ (ground arith)

-- `enschedule_best` picks the processor at index 0, however many there are and whatever waits for
-- each: its loop compares that processor with itself.
pub best_cpu-zero : (queues : Queues) (cpus : List (List queues.Queue)) → best_cpu queues cpus ≡ 0
unfolding best_cpu
best_cpu-zero queues cpus = best_loop-zero queues (length cpus - 1) cpus _ refl
