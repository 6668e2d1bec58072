-- ===== src/Process/Futex/Tests.antt =====
-- Three threads that wait, and a thread whose list serves two words.
use cthulhu_os.Prelude.{ℕ, ◌≡◌, refl, true, false, Option, none, some, [], ◌∷◌}
use cthulhu_os.Process.Futex.{Futexes, update, futex_wait, futex_wake}

abbrev three_wait : Futexes
three_wait = record {
  table = update (λ a. none) 0x5000 (some 1);
  lists = update (λ l. []) 1 (1 ∷ 2 ∷ 3 ∷ []);
  blocked = λ t. true;
  ready = [];
}

abbrev nobody : Futexes
nobody = record { table = λ a. none; lists = λ l. []; blocked = λ t. false; ready = [] }

abbrev woken : Option (ℕ × Futexes) → Futexes
woken none = nobody
woken (some r) = r.1

-- Thread 1 waits for the word at 0x5000, is woken, and waits for the one at 0x6000: both words have its
-- list then, so a wake for 0x5000 wakes it.
abbrev shared_list : Futexes
shared_list = woken (
    futex_wake false 22 0x5000 1
      (futex_wait 11 1 0x6000 0 0
        (woken (futex_wake false 22 0x5000 1 ((futex_wait 11 1 0x5000 0 0 nobody).1)))).1)

wrong_word : shared_list.ready ≡ 1 ∷ 1 ∷ []
unfolding futex_wait futex_wake
wrong_word = refl
