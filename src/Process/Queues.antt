-- ===== src/Process/Queues.antt =====
-- What the scheduler relies on in the C library's `queue_t` (ds/queue): a first-in first-out queue of
-- threads, known by the list of its elements, and such a queue.
use cthulhu_os.Prelude.{
  ℕ, Bool, true, false, Option, none, some, List, [], ◌∷◌, ◌++◌, ◌≡◌, refl, length,
}

abbrev pub non_empty {ℓ} : {A : Type ℓ} → List A → Bool
non_empty [] = false
non_empty (x ∷ xs) = true

abbrev pub pop_front {ℓ} : {A : Type ℓ} → List A → Option A × List A
pop_front [] = (none, [])
pop_front (x ∷ xs) = (some x, xs)

-- A thread is known by its address. `queue_pop` of an empty queue is NULL.
pub record Queues : Type 1 where
  pub Queue : Type 0
  pub items : Queue → List ℕ
  pub push : Queue → ℕ → Queue
  pub pop : Queue → Option ℕ × Queue
  pub size : Queue → ℕ
  pub has_elements : Queue → Bool
  pub items-push : (q : Queue) (t : ℕ) → items (push q t) ≡ items q ++ (t ∷ [])
  pub pop-items : (q : Queue) → (pop q).0 ≡ (pop_front (items q)).0
  pub items-pop : (q : Queue) → items (pop q).1 ≡ (pop_front (items q)).1
  pub size-items : (q : Queue) → size q ≡ length (items q)
  pub has_elements-items : (q : Queue) → has_elements q ≡ non_empty (items q)

abbrev pub list_queues : Queues
list_queues = record {
  Queue = List ℕ;
  items = λ q. q;
  push = λ q t. q ++ (t ∷ []);
  pop = λ q. pop_front q;
  size = λ q. length q;
  has_elements = λ q. non_empty q;
  items-push = λ q t. refl;
  pop-items = λ q. refl;
  items-pop = λ q. refl;
  size-items = λ q. refl;
  has_elements-items = λ q. refl;
}
