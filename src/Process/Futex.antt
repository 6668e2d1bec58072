-- ===== src/Process/Futex.antt =====
-- Threads that wait for a word of memory (src/kernel/processes/scheduler.c: `futex_wait`,
-- `futex_wake`). A thread and its list `futex_block` are known by the thread's address. `ready` are the
-- threads that `enschedule_best_nolock` got, in order; the call of `schedule` after `futex_wait` is left
-- to the caller. `first` tells whether the code runs on processor 0: `futex_wake` holds the locks of its
-- processor, and `enschedule_best_nolock` takes those of processor 0 for `get_priority_count`, so there
-- it spins for ever, which is `none`. On another processor it waits for those locks, which whoever
-- holds them gives back.
pub mod Wake
mod Tests
use cthulhu_os.Prelude.{
  ℕ, zero, suc, Bool, true, false, not, Option, none, some, List, [], ◌∷◌, ◌++◌, ◌==◌,
  if◌then◌else◌,
}
use mathlib.Core.Option

-- `proc->futexes`, the lists, `blocked` of the threads.
pub record Futexes : Type 0 where
  pub table : ℕ → Option ℕ
  pub lists : ℕ → List ℕ
  pub blocked : ℕ → Bool
  pub ready : List ℕ

abbrev pub update {ℓ} : {A : Type ℓ} → (ℕ → A) → ℕ → A → ℕ → A
update m i v = λ j. if j == i then v else m j

-- The list of a word; a word without one gets the list of the thread that waits.
unfoldable pub waiting_list : ℕ → Option ℕ → ℕ
waiting_list ct none = ct
waiting_list ct (some l) = l

-- `ct` waits while the word at `ftx`, which is `word`, is `value`.
unfoldable pub futex_wait : ℕ → ℕ → ℕ → ℕ → ℕ → Futexes → ℕ × Futexes
unfolding waiting_list
futex_wait ewouldblock ct ftx word value s =
    let btl = waiting_list ct (s.table ftx) in
    if not (word == value) then (ewouldblock, s) else (
      0,
      record s {
        table = update s.table ftx (some btl);
        lists = update s.lists btl (s.lists btl ++ (ct ∷ []));
        blocked = update s.blocked ct true;
      },
    )

-- The loop of `futex_wake` with `num` rounds to go over the threads of the list; what is left of it.
unfoldable pub wake_loop : Bool → ℕ → List ℕ → Futexes → Option (List ℕ × Futexes)
wake_loop first zero ts s = some (ts, s)
wake_loop first (suc num) [] s = some ([], s)
wake_loop true (suc num) (t ∷ ts) s = none
wake_loop false (suc num) (t ∷ ts) s =
    wake_loop false num ts
      (record s { blocked = update s.blocked t false; ready = s.ready ++ (t ∷ []) })

unfoldable pub wake_list : Bool → ℕ → ℕ → Option ℕ → Futexes → Option (ℕ × Futexes)
unfolding wake_loop
wake_list first einval num none s = some (einval, s)
wake_list first einval num (some l) s =
    Option.map (λ r. (0, record r.1 { lists = update s.lists l r.0 }))
      (wake_loop first num (s.lists l) s)

unfoldable pub futex_wake : Bool → ℕ → ℕ → ℕ → Futexes → Option (ℕ × Futexes)
unfolding wake_list
futex_wake first einval ftx num s = wake_list first einval num (s.table ftx) s
