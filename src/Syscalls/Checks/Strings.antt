-- ===== src/Syscalls/Checks/Strings.antt =====
-- When `validate_string` returns (src/kernel/syscalls/syscall_defs.cc).
use cthulhu_os.Prelude.{
  ℕ, zero, suc, ◌+◌, ◌-◌, ◌*◌, ◌%◌, ◌≤◌, ◌<◌, ◌≡◌, ◌≢◌, refl, ◌∙◌, inl, inr, Bool, true, false,
  Option, none, some, List, [], le→ltb, ◌==◌, add64, u64, Bool-cases, arith,
}
use cthulhu_os.Memory.Paging.{FramePool, Memory}
use cthulhu_os.Memory.Paging.Change.{
  Memstate, ms_okay, ms_swapped, ms_allocondem, ms_cow, ms_notpresent, ms_einvalid, check_mem_state,
}
use cthulhu_os.Syscalls.Checks.{next_page, has_end, Checked, if_okay, string_loop, validate_string}

has_end-true :
    (chars : ℕ → ℕ) (addr n i : ℕ) → i < n → chars (addr + i) ≡ 0 → has_end chars addr n ≡ true
unfolding has_end
has_end-true chars addr zero i h e = absurd (omega arith)
has_end-true chars addr (suc n) zero h e = ground arith
has_end-true chars addr (suc n) (suc i) h e =
    ground (arith, has_end-true chars (suc addr) n i (omega arith) (ground arith))

has_end-false :
    (chars : ℕ → ℕ) (addr n : ℕ)
    → ((i : ℕ) → i < n → chars (addr + i) ≢ 0)
    → has_end chars addr n ≡ false
unfolding has_end
has_end-false chars addr zero h = refl
has_end-false chars addr (suc n) h =
    let here : (chars addr == 0) ≡ false = ground (arith, h 0 (omega arith)) in
    rw (here, has_end-false chars (suc addr) n (λ i lt e. h (suc i) (omega arith) (ground arith)))
      refl

next_page-tail :
    (a tail : ℕ)
    → a % 0x1000 + tail ≡ 0x1000
    → tail < 0x1000
    → a + 0x1000 < u64
    → next_page a ≡ a + tail
unfolding next_page
next_page-tail a tail e small b = elim (Bool-cases (a % 0x1000 == 0)) [
  | inl z ↦ ground arith
  | inr z ↦ rw z (omega arith)
]

module _ (pool : FramePool) (mirror : Bool) (old : ℕ → ℕ) (cr3 : ℕ) where
  check_mem_state-empty :
      (address maxc : ℕ) (elements : List ℕ) (m : Memory pool)
      → check_mem_state pool address 0 maxc elements cr3 m ≡ (ms_okay, elements)
  unfolding check_mem_state
  check_mem_state-empty address maxc elements m =
      rw (le→ltb address (add64 address 0) (omega arith)) refl

  string_loop-none :
      (fuel : ℕ) (chars : ℕ → ℕ) (addr : ℕ) (present : Bool) (m : Memory pool) (elements : List ℕ)
      → string_loop pool mirror old cr3 fuel chars addr addr present m elements ≡ none
  unfolding string_loop
  string_loop-none zero chars addr present m elements = refl
  string_loop-none (suc fuel) chars addr present m elements =
      let none_left : addr - addr ≡ 0 = omega arith in
      rw (le→ltb addr addr (omega arith), none_left, check_mem_state-empty addr 0x512 elements m)
        (string_loop-none fuel chars (add64 addr 0x1000) present m elements)

  -- `validate_string` does not return for a string at the beginning of a page, whatever stands there:
  -- the part of the page that it looks at is empty, in this and in every following round.
  pub validate_string-endless :
      (fuel : ℕ) (chars : ℕ → ℕ) (string : ℕ) (present : Bool) (m : Memory pool)
      → string % 0x1000 ≡ 0
      → validate_string pool mirror old cr3 fuel chars string present m ≡ none
  unfolding validate_string next_page
  validate_string-endless fuel chars string present m e =
      rw e (string_loop-none fuel chars string present m [])

  if_okay-okay :
      (found : Memstate × List ℕ) (next : Option (Checked pool mirror old cr3)) (present : Bool)
      (m : Memory pool)
      → found.0 ≡ ms_okay
      → if_okay pool mirror old cr3 found next present m ≡ next
  unfolding if_okay
  if_okay-okay (ms_okay, es) next present m e = refl
  if_okay-okay (ms_swapped, es) next present m e = ground arith
  if_okay-okay (ms_allocondem, es) next present m e = ground arith
  if_okay-okay (ms_cow, es) next present m e = ground arith
  if_okay-okay (ms_notpresent, es) next present m e = ground arith
  if_okay-okay (ms_einvalid, es) next present m e = ground arith

  string_loop-finds :
      (n extra : ℕ) (chars : ℕ → ℕ) (addr tail : ℕ) (present : Bool) (m : Memory pool) (es : List ℕ)
      → addr + n * 0x1000 + 0x1000 + tail < u64
      → ((j : ℕ) (es' : List ℕ)
          → j ≤ n
          → (check_mem_state pool (addr + j * 0x1000) tail 0x512 es' cr3 m).0 ≡ ms_okay)
      → ((j : ℕ) → j < n → has_end chars (addr + j * 0x1000) tail ≡ false)
      → has_end chars (addr + n * 0x1000) tail ≡ true
      → string_loop pool mirror old cr3 (suc (n + extra)) chars addr (addr + tail) present m es
        ≡ some (record { valid = true; present = present; memory = m })
  unfolding string_loop
  string_loop-finds zero extra chars addr tail present m es b okay before found =
      let size : addr + tail - addr ≡ tail = omega arith in
      let here : addr + 0 * 0x1000 ≡ addr = omega arith in
      let ok = rw here at (okay 0 es (omega arith)) in
      let end = rw here at found in
      rw (le→ltb (addr + tail) addr (omega arith), size, end) (if_okay-okay _ _ present m ok)
  string_loop-finds (suc n) extra chars addr tail present m es b okay before found =
      let size : addr + tail - addr ≡ tail = omega arith in
      let here : addr + 0 * 0x1000 ≡ addr = omega arith in
      let ok = rw here at (okay 0 es (omega arith)) in
      let go_on = rw here at (before 0 (omega arith)) in
      let next : add64 addr 0x1000 ≡ addr + 0x1000 = omega arith in
      let fuel : suc n + extra ≡ suc (n + extra) = omega arith in
      let next_end : add64 (addr + tail) 0x1000 ≡ addr + 0x1000 + tail = omega arith in
      rw (le→ltb (addr + tail) addr (omega arith), size, go_on, fuel, next, next_end)
        (if_okay-okay _ _ present m ok
          ∙ string_loop-finds n extra chars (addr + 0x1000) tail present m _ (omega arith)
              (λ j es' le. rw (shift j) at (okay (suc j) es' (omega arith)))
              (λ j lt. rw (shift j) at (before (suc j) (omega arith))) (rw (shift n) at found))
    where
      shift : (j : ℕ) → addr + suc j * 0x1000 ≡ addr + 0x1000 + j * 0x1000
      shift j = omega arith

  string_loop-goes_on :
      (n fuel : ℕ) (chars : ℕ → ℕ) (addr tail : ℕ) (present : Bool) (m : Memory pool) (es : List ℕ)
      → fuel ≤ n
      → addr + n * 0x1000 + 0x1000 + tail < u64
      → ((j : ℕ) (es' : List ℕ)
          → j ≤ n
          → (check_mem_state pool (addr + j * 0x1000) tail 0x512 es' cr3 m).0 ≡ ms_okay)
      → ((j : ℕ) → j < n → has_end chars (addr + j * 0x1000) tail ≡ false)
      → string_loop pool mirror old cr3 fuel chars addr (addr + tail) present m es ≡ none
  unfolding string_loop
  string_loop-goes_on n zero chars addr tail present m es h b okay before = refl
  string_loop-goes_on zero (suc fuel) chars addr tail present m es h b okay before =
      absurd (omega arith)
  string_loop-goes_on (suc n) (suc fuel) chars addr tail present m es h b okay before =
      let size : addr + tail - addr ≡ tail = omega arith in
      let here : addr + 0 * 0x1000 ≡ addr = omega arith in
      let ok = rw here at (okay 0 es (omega arith)) in
      let go_on = rw here at (before 0 (omega arith)) in
      let next : add64 addr 0x1000 ≡ addr + 0x1000 = omega arith in
      let next_end : add64 (addr + tail) 0x1000 ≡ addr + 0x1000 + tail = omega arith in
      rw (le→ltb (addr + tail) addr (omega arith), size, go_on, next, next_end)
        (if_okay-okay _ _ present m ok
          ∙ string_loop-goes_on n fuel chars (addr + 0x1000) tail present m _ (omega arith)
              (omega arith) (λ j es' le. rw (shift j) at (okay (suc j) es' (omega arith)))
              (λ j lt. rw (shift j) at (before (suc j) (omega arith))))
    where
      shift : (j : ℕ) → addr + suc j * 0x1000 ≡ addr + 0x1000 + j * 0x1000
      shift j = omega arith

  -- For a string that does not start at the beginning of a page, `validate_string` looks only at the
  -- last `tail` bytes of each stretch of 0x1000 bytes from the string on, `tail` being the bytes that
  -- are left of its first page: where these are in order, it answers true in the round in which the
  -- first 0 stands among them, and not before.
  pub validate_string-finds :
      (n extra i : ℕ) (chars : ℕ → ℕ) (string tail : ℕ) (present : Bool) (m : Memory pool)
      → string % 0x1000 + tail ≡ 0x1000
      → tail < 0x1000
      → i < tail
      → string + n * 0x1000 + 0x2000 < u64
      → ((j : ℕ) (es : List ℕ)
          → j ≤ n
          → (check_mem_state pool (string + j * 0x1000) tail 0x512 es cr3 m).0 ≡ ms_okay)
      → ((j k : ℕ) → j < n → k < tail → chars (string + j * 0x1000 + k) ≢ 0)
      → chars (string + n * 0x1000 + i) ≡ 0
      → (validate_string pool mirror old cr3 (suc (n + extra)) chars string present m
          ≡ some (record { valid = true; present = present; memory = m }))
        × ((fuel : ℕ)
            → fuel ≤ n
            → validate_string pool mirror old cr3 fuel chars string present m ≡ none)
  unfolding validate_string
  validate_string-finds n extra i chars string tail present m left small lt room okay before found =
      let unseen : (j : ℕ) → j < n → has_end chars (string + j * 0x1000) tail ≡ false =
        λ j jn. has_end-false chars (string + j * 0x1000) tail (λ k kt. before j k jn kt) in
      rw (next_page-tail string tail left small (omega arith)) (
        string_loop-finds n extra chars string tail present m [] (omega arith) okay unseen
            (has_end-true chars (string + n * 0x1000) tail i lt found),
        λ fuel h.
            string_loop-goes_on n fuel chars string tail present m [] h (omega arith) okay unseen,
      )
