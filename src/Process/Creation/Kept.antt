-- ===== src/Process/Creation/Kept.antt =====
-- The user's side of a creation of a process (src/kernel/processes/process.c) and the kernel's blocks.
use cthulhu_os.Prelude.{
  ℕ, zero, suc, ◌+◌, ◌≡◌, refl, Bool, true, false, Option, none, some, List, [], ◌∷◌, length,
  if◌then◌else◌, ◌==◌,
}
use cthulhu_os.Loader.Elf.Sections.{Step, next, stop, crash, Start}
use cthulhu_os.Process.Creation.{
  Block, Heap, Error, Made, made, failed, faulted, after_made, on_null,
}
use cthulhu_os.Process.Creation.Base.{
  loading, Creating, Program, User, copy_user_loop, cpy_array_user, message_loop, loaded,
  load_program, build_info, build_user,
}

module _ {A : Type 0} where
  -- The step has not changed the heap.
  unfoldable pub Keeps : Heap → Made A → Type 0
  Keeps h (made a h') = h' ≡ h
  Keeps h (failed e h') = h' ≡ h
  Keeps h faulted = Unit

after_made-Keeps :
    {A B : Type 0} (h : Heap) (m : Made A) (k : A → Heap → Made B)
    → Keeps h m
    → ((a : A) → Keeps h (k a h))
    → Keeps h (after_made m k)
unfolding after_made Keeps
after_made-Keeps h (made a h') k e f = rw e (f a)
after_made-Keeps h (failed x h') k e f = e
after_made-Keeps h faulted k e f = tt

-- A step whose tests for NULL end in failures and faults that keep the heap.
on_null-Keeps :
    {X A : Type 0} (h : Heap) (r : Option X) (m : Made A) (k : X → Made A)
    → Keeps h m
    → ((x : X) → Keeps h (k x))
    → Keeps h (on_null r m k)
unfolding on_null Keeps
on_null-Keeps h none m k e f = e
on_null-Keeps h (some x) m k e f = f x

Keeps-made : {A : Type 0} (a : A) (h : Heap) → Keeps h (made a h)
unfolding Keeps
Keeps-made a h = refl

Keeps-failed : (A : Type 0) (e : Error) (h : Heap) → Keeps {A = A} h (failed e h)
unfolding Keeps
Keeps-failed A e h = refl

Keeps-faulted : (A : Type 0) (h : Heap) → Keeps {A = A} h faulted
unfolding Keeps
Keeps-faulted A h = tt

if-Keeps :
    {A : Type 0} (h : Heap) (b : Bool) (m m' : Made A)
    → Keeps h m
    → Keeps h m'
    → Keeps h (if b then m else m')
if-Keeps h true m m' k k' = k
if-Keeps h false m m' k k' = k'

module _ (creating : Creating) (grants : Block → Bool) (area_ok : ℕ → Bool)
    (random : ℕ → ℕ → ℕ) where
  copy_user_loop-Keeps :
      (na : ℕ) (ss : List (List ℕ)) (u : User creating grants) (h : Heap)
      → Keeps h (copy_user_loop creating grants area_ok random na ss u h)
  unfolding copy_user_loop
  copy_user_loop-Keeps na [] u h = Keeps-made _ h
  copy_user_loop-Keeps na (s ∷ ss) u h =
      on_null-Keeps h _ _ _ (Keeps-faulted _ h)
        (λ r. if-Keeps h (r.0 == 0) _ _ (Keeps-failed _ _ h) (copy_user_loop-Keeps (na + 8) ss _ h))

  cpy_array_user-Keeps :
      (array : List (List ℕ)) (u : User creating grants) (h : Heap)
      → Keeps h (cpy_array_user creating grants area_ok random array u h)
  unfolding cpy_array_user
  cpy_array_user-Keeps array u h =
      on_null-Keeps h _ _ _ (Keeps-faulted _ h) (λ (r : ℕ × User creating grants).
        on_null-Keeps h _ _ _ (Keeps-failed _ _ h) (λ na.
          after_made-Keeps h _ _ (copy_user_loop-Keeps na array r.1 h) (λ u'. Keeps-made _ h)))

  message_loop-Keeps :
      (n : ℕ) (u : User creating grants) (h : Heap)
      → Keeps h (message_loop creating grants area_ok random n u h)
  unfolding message_loop
  message_loop-Keeps zero u h = Keeps-made _ h
  message_loop-Keeps (suc n) u h =
      on_null-Keeps h _ _ _ (Keeps-faulted _ h)
        (λ r. if-Keeps h (r.0 == 0) _ _ (Keeps-failed _ _ h) (message_loop-Keeps n r.1 h))

  loaded-Keeps :
      (u : User creating grants) (h : Heap)
      (r : Step (loading creating grants) (Start (loading creating grants)))
      → Keeps h (loaded creating grants area_ok random u h r)
  unfolding loaded Keeps
  loaded-Keeps u h (next start image) = refl
  loaded-Keeps u h (stop e image) = refl
  loaded-Keeps u h crash = tt

  load_program-Keeps :
      (program : Program) (u : User creating grants) (h : Heap)
      → Keeps h (load_program creating grants area_ok random program u h)
  unfolding load_program
  load_program-Keeps program u h =
      let calls : ℕ = suc (length program.sections + length program.sections) in
      loaded-Keeps (record u { calls = calls }) h _

  build_info-Keeps :
      (start : Start (loading creating grants)) (argv environ : ℕ) (u : User creating grants)
      (h : Heap)
      → Keeps h (build_info creating grants area_ok random start argv environ u h)
  unfolding build_info
  build_info-Keeps start argv environ u h =
      on_null-Keeps h _ _ _ (Keeps-faulted _ h) (λ (r : ℕ × User creating grants).
        if-Keeps h (r.0 == 0) _ _ (Keeps-failed _ _ h) (
          on_null-Keeps h _ _ _ (Keeps-faulted _ h)
            (λ li. after_made-Keeps h _ _ (message_loop-Keeps 30 _ h) (λ u'. Keeps-made _ h))))

  abbrev fresh : creating.Mem → User creating grants
  fresh mem = record { calls = 0; space = record { maps = []; mem = mem; freed = [] } }

  -- Nothing on the user's side takes or frees one of the kernel's blocks.
  pub build_user-Keeps :
      (program : Program) (argv envp : List (List ℕ)) (mem : creating.Mem) (h : Heap)
      → Keeps h (build_user creating grants area_ok random program argv envp mem h)
  unfolding build_user
  build_user-Keeps program argv envp mem h =
      after_made-Keeps h _ _ (load_program-Keeps program (fresh mem) h) (λ l.
        after_made-Keeps h _ _ (cpy_array_user-Keeps argv _ h) (λ a.
          after_made-Keeps h _ _ (cpy_array_user-Keeps envp _ h) (λ e. build_info-Keeps _ _ _ _ h)))
