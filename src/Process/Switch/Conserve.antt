-- ===== src/Process/Switch/Conserve.antt =====
-- A round of the scheduler loses no thread and doubles none.
use cthulhu_os.Prelude.{
  ℕ, zero, suc, ◌==◌, ◌≡◌, refl, sym, ap, ◌≢◌, ◌∙◌, inl, inr, Option, none, some, List, [], ◌∷◌,
  ◌++◌, arith, if◌then◌else◌, get_elem?, set, length, Bool-cases,
}
use mathlib.Core.List.{Perm, perm_middle, append_assoc}
use mathlib.Core.List.Perm
use mathlib.Core.Option.{some-injective}
use mathlib.Core.Path.{subst}
use cthulhu_os.Prelude.{◌<◌}
use cthulhu_os.Process.Queues.{Queues, pop_front}
use cthulhu_os.Process.Scheduler.{enqueue, do_get_priority_count}
use cthulhu_os.Process.Scheduler.Order.{
  waiting, get_and_update_threads-waiting, do_get_priority_count-nil, length-select,
}
use cthulhu_os.Process.Switch.{
  Registers, Threads, Cpu, Switched, same_thread, resumed, entered, idle, fault, leave, load_space,
  save, after_save, switch_to, stay, is_thread, requeue, after_requeue, context_switch,
  switch_selected, schedule,
}

module _ (queues : Queues) where
  open queues use {Queue, items, push, items-push}

  waiting-set :
      (qs : List Queue) (i t : ℕ) (q : Queue)
      → get_elem? qs i ≡ some q
      → Perm (waiting queues (set qs i (push q t))) (t ∷ waiting queues qs)
  waiting-set [] i t q e = cc
  waiting-set (p ∷ qs) zero t q e =
      rw (items-push, append_assoc)
        (subst (λ z. Perm (items q ++ (t ∷ waiting queues qs)) (t ∷ (items z ++ waiting queues qs)))
          (sym (some-injective p q e)) (perm_middle (items q) (waiting queues qs)))
  waiting-set (p ∷ qs) (suc i) t q e =
      Perm.trans (Perm.append_left (items p) (waiting-set qs i t q e))
        (perm_middle (items p) (waiting queues qs))

  get_elem?-lt : (qs : List Queue) (i : ℕ) → i < length qs → (q : Queue) × (get_elem? qs i ≡ some q)
  get_elem?-lt [] i h = absurd (omega arith)
  get_elem?-lt (q ∷ qs) zero h = (q, refl)
  get_elem?-lt (q ∷ qs) (suc i) h = get_elem?-lt qs i (omega arith)

  enqueue-waiting :
      (qs : List Queue) (i t : ℕ)
      → i < length qs
      → (qs' : List Queue) × (enqueue queues i t qs ≡ some qs')
        × Perm (waiting queues qs') (t ∷ waiting queues qs)
  unfolding enqueue
  enqueue-waiting qs i t h =
      let (q, e) = get_elem?-lt qs i h in (set qs i (push q t), rw e, waiting-set qs i t q e)

  -- The thread on the processor, if it can go on.
  abbrev pub current : Threads → Option ℕ → List ℕ
  current threads none = []
  current threads (some o) = if (threads o).blocked then [] else o ∷ []

  requeue-waiting :
      (threads : Threads) (old : Option ℕ) (qs : List Queue)
      → ((o : ℕ) → old ≡ some o → (threads o).priority < length qs)
      → (qs' : List Queue) × (requeue queues old threads qs ≡ some qs')
        × Perm (waiting queues qs') (current threads old ++ waiting queues qs)
  unfolding requeue
  requeue-waiting threads none qs h = (qs, refl, Perm.refl (waiting queues qs))
  requeue-waiting threads (some o) qs h = elim (Bool-cases (threads o).blocked) [
    | inl b ↦ rw b (qs, refl, Perm.refl (waiting queues qs))
    | inr b ↦ rw b (enqueue-waiting qs (threads o).priority o (h o refl))
  ]

  -- What a round leaves: some thread `n` runs, and `n` and the waiting threads are the threads that
  -- waited and the one that ran, unless that is blocked.
  abbrev pub Conserves : Cpu queues → Switched queues → Type 0
  Conserves cpu (same_thread r c) =
      (n : ℕ) × (c.ct ≡ some n)
      × Perm (n ∷ waiting queues c.run_queues)
          (current cpu.threads cpu.ct ++ waiting queues cpu.run_queues)
  Conserves cpu (resumed r b c) =
      (n : ℕ) × (c.ct ≡ some n)
      × Perm (n ∷ waiting queues c.run_queues)
          (current cpu.threads cpu.ct ++ waiting queues cpu.run_queues)
  Conserves cpu (entered e c) =
      (n : ℕ) × (c.ct ≡ some n)
      × Perm (n ∷ waiting queues c.run_queues)
          (current cpu.threads cpu.ct ++ waiting queues cpu.run_queues)
  Conserves cpu idle = Unit
  Conserves cpu fault = ⊥

  leave-Conserves :
      (r : Option Registers) (n : ℕ) (cpu c : Cpu queues)
      → c.ct ≡ some n
      → Perm
          (n ∷ waiting queues c.run_queues)
          (current cpu.threads cpu.ct ++ waiting queues cpu.run_queues)
      → Conserves cpu (leave queues r n c)
  unfolding leave load_space
  leave-Conserves none n cpu c e p = (n, e, p)
  leave-Conserves (some r) n cpu c e p = (n, e, p)

  -- The processor can be taken from its thread: the thread's priority has a queue, and there is one
  -- if registers have been saved.
  pub record IsReady (r : Option Registers) (cpu : Cpu queues) : Type 0 where
    pub queued : (o : ℕ) → cpu.ct ≡ some o → (cpu.threads o).priority < length cpu.run_queues
    pub running : cpu.ct ≡ none → r ≡ none

  -- The threads of a state that goes on with `n`.
  abbrev Whole : Cpu queues → ℕ → List Queue → Type 0
  Whole cpu n qs =
      Perm (n ∷ waiting queues qs) (current cpu.threads cpu.ct ++ waiting queues cpu.run_queues)

  switch_to-Conserves :
      (r : Option Registers) (old : Option ℕ) (n : ℕ) (cpu c : Cpu queues)
      → (old ≡ none → r ≡ none)
      → Whole cpu n c.run_queues
      → Conserves cpu (switch_to queues r old n c)
  unfolding switch_to save after_save
  switch_to-Conserves none old n cpu c running all = leave-Conserves none n cpu _ refl all
  switch_to-Conserves (some r) none n cpu c running all = cc (running refl)
  switch_to-Conserves (some r) (some o) n cpu c running all =
      leave-Conserves (some r) n cpu _ refl all

  stay-Conserves :
      (r : Option Registers) (n : ℕ) (cpu c : Cpu queues)
      → c.ct ≡ some n
      → Whole cpu n c.run_queues
      → Conserves cpu (stay queues r n c)
  unfolding stay
  stay-Conserves none n cpu c on all = leave-Conserves none n cpu c on all
  stay-Conserves (some r) n cpu c on all = elim (Bool-cases (r.cs == 43)) [
    | inl e ↦ rw e (n, on, all)
    | inr e ↦ rw e (leave-Conserves (some r) n cpu c on all)
  ]

  -- `before` is the state that is compared, `cpu` the one with the selected thread taken out.
  after_requeue-Conserves :
      (r : Option Registers) (old : Option ℕ) (n : ℕ) (before cpu : Cpu queues) (qs : List Queue)
      → cpu.ct ≡ old
      → (old ≡ none → r ≡ none)
      → Whole before n qs
      → Conserves before (after_requeue queues r old n cpu (some qs))
  unfolding after_requeue is_thread
  after_requeue-Conserves r none n before cpu qs e running all =
      switch_to-Conserves r none n before (record cpu { run_queues = qs }) running all
  after_requeue-Conserves r (some o) n before cpu qs e running all =
      let c : Cpu queues = record cpu { run_queues = qs } in
      elim (Bool-cases (o == n)) [
        | inl f ↦ rw f (stay-Conserves r n before c (e ∙ ap some (ground arith)) all)
        | inr f ↦ rw f (switch_to-Conserves r (some o) n before c running all)
      ]

  switch_selected-Conserves :
      (r : Option Registers) (cpu : Cpu queues) (x : Option ℕ × List Queue) (w : List ℕ)
      → IsReady r cpu
      → waiting queues cpu.run_queues ≡ w
      → w ≢ []
      → (x.0 ≡ (pop_front w).0) × (waiting queues x.1 ≡ (pop_front w).1)
      → length x.1 ≡ length cpu.run_queues
      → Conserves cpu (switch_selected queues r cpu x)
  unfolding switch_selected context_switch
  switch_selected-Conserves r cpu x [] ready e some_wait got same = absurd (some_wait refl)
  switch_selected-Conserves r cpu (none, qs) (t ∷ ts) ready e some_wait got same = cc (got.0)
  switch_selected-Conserves r cpu (some n, qs) (t ∷ ts) ready e some_wait got same =
      let (qs', back, perm) =
        requeue-waiting cpu.threads cpu.ct qs (λ o on. rw same (ready.queued o on)) in
      let first : waiting queues cpu.run_queues ≡ n ∷ waiting queues qs =
        e ∙ ground (arith, some-injective n t got.0) in
      let whole : Whole cpu n qs' = rw first (
        Perm.trans (Perm.cons n perm)
          (Perm.symm (perm_middle (current cpu.threads cpu.ct) (waiting queues qs)))) in
      rw back (
        after_requeue-Conserves r cpu.ct n cpu (record cpu { run_queues = qs }) qs' refl
          ready.running whole)

  -- Where the processor can be taken from its thread, a round of `schedule` does not fault. Unless it
  -- waits, one thread runs afterwards, and this thread and the waiting ones are, in some order, the
  -- threads that waited before together with the one that ran, if that is not blocked.
  pub schedule-Conserves :
      (r : Option Registers) (cpu : Cpu queues)
      → IsReady r cpu
      → Conserves cpu (schedule queues r cpu)
  unfolding schedule
  schedule-Conserves r cpu ready =
      elim (Bool-cases (do_get_priority_count queues cpu.run_queues == 0)) [
        | inl e ↦ rw e tt
        | inr e ↦ rw e (
            switch_selected-Conserves r cpu _ (waiting queues cpu.run_queues) ready refl
              (λ z. let c = do_get_priority_count-nil queues cpu.run_queues z in ground arith)
              (get_and_update_threads-waiting queues cpu.run_queues)
              (length-select queues cpu.run_queues))
      ]
