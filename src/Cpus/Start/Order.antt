-- ===== src/Cpus/Start/Order.antt =====
-- Which processors the MADT leads to, and how they are found (src/kernel/cpus/cpu_mgmt.c).
use cthulhu_os.Prelude.{
  ℕ, zero, suc, ◌-◌, ◌≤◌, ◌<◌, ◌≡◌, refl, sym, ap, ◌∙◌, ◌≢◌, ◌⊎◌, inl, inr, Bool, true, false, ◌&&◌,
  some, List, [], ◌∷◌, ◌++◌, ◌==◌, if◌then◌else◌, add64, sub64-eq, length, get_elem?, All,
  Bool-cases, arith, u64,
}
use cthulhu_os.Memory.Frames.Serve.{Distinct}
use cthulhu_os.Cpus.Start.{
  Subtable, MadeCpu, Cpus, make_cpu, push_cpu, add_subtable, Walk, walked, halted, endless,
  or_halted, madt_loop, filled_cpu, initialize_cpus,
}
use mathlib.Core.Option.{some-injective, some-ne-none}

-- The subtables that stand one behind the other from an address on, filling the bytes.
abbrev pub IsLaid : (ℕ → Subtable) → ℕ → ℕ → List Subtable → Type 0
IsLaid at addr bytes [] = bytes ≡ 0
IsLaid at addr bytes (h ∷ hs) =
    (at addr ≡ h)
    × (0 < h.length)
    × (h.length ≤ bytes)
    × IsLaid at (add64 addr h.length) (bytes - h.length) hs

-- The processors that the subtables enable.
abbrev pub enabled_ids : List Subtable → List ℕ
enabled_ids [] = []
enabled_ids (h ∷ hs) =
    if h.type == 0 && h.lapic_flags == 1 then h.processor_id ∷ enabled_ids hs else enabled_ids hs

-- The numbers of the processors, in their order.
abbrev pub numbers : List MadeCpu → List ℕ
numbers [] = []
numbers (c ∷ cs) = c.processor_id ∷ numbers cs

numbers-snoc :
    (cs : List MadeCpu) (c : MadeCpu) (ps : List ℕ)
    → numbers (cs ++ (c ∷ [])) ++ ps ≡ numbers cs ++ (c.processor_id ∷ ps)
numbers-snoc [] c ps = refl
numbers-snoc (d ∷ cs) c ps = ap (λ l. d.processor_id ∷ l) (numbers-snoc cs c ps)

append_nil : (ps : List ℕ) → ps ++ [] ≡ ps
append_nil [] = refl
append_nil (p ∷ ps) = ap (λ l. p ∷ l) (append_nil ps)

-- Every processor is found by its number.
unfoldable pub IsIndexed : Cpus → Type 0
IsIndexed s = (i : ℕ) (c : MadeCpu) → get_elem? s.cpus i ≡ some c → s.ord c.processor_id ≡ i

-- No processor has the number.
IsFresh : Cpus → ℕ → Type 0
IsFresh s p = (i : ℕ) (c : MadeCpu) → get_elem? s.cpus i ≡ some c → c.processor_id ≢ p

get_elem?-snoc :
    (xs : List MadeCpu) (x : MadeCpu) (i : ℕ) (c : MadeCpu)
    → get_elem? (xs ++ (x ∷ [])) i ≡ some c
    → (get_elem? xs i ≡ some c) ⊎ ((i ≡ length xs) × (x ≡ c))
get_elem?-snoc [] x zero c e = inr (refl, some-injective _ _ e)
get_elem?-snoc [] x (suc i) c e = absurd (some-ne-none c (sym e))
get_elem?-snoc (y ∷ xs) x zero c e = inl e
get_elem?-snoc (y ∷ xs) x (suc i) c e = elim (get_elem?-snoc xs x i c e) [
  | inl f ↦ inl f
  | inr f ↦ inr (omega (arith, f.0), f.1)
]

-- The processors there are and those of the subtables to come: together they have the numbers `ids`.
record Ready (ids : List ℕ) (hs : List Subtable) (s : Cpus) : Type 0 where
  complete : numbers s.cpus ++ enabled_ids hs ≡ ids
  indexed : IsIndexed s
  fresh : All (IsFresh s) (enabled_ids hs)
  distinct : Distinct (enabled_ids hs)

pushed : Subtable → MadeCpu → Cpus → Cpus
pushed h cpu s = record {
  cpus = s.cpus ++ (cpu ∷ []);
  ord = λ p. if p == h.processor_id then length s.cpus else s.ord p;
}

pushed-IsIndexed :
    (h : Subtable) (cpu : MadeCpu) (s : Cpus)
    → cpu.processor_id ≡ h.processor_id
    → IsFresh s h.processor_id
    → IsIndexed s
    → IsIndexed (pushed h cpu s)
unfolding pushed IsIndexed IsFresh
pushed-IsIndexed h cpu s e f v i c g = elim (get_elem?-snoc s.cpus cpu i c g) [
  | inl old ↦
      let ne = f i c old in
      let b : (c.processor_id == h.processor_id) ≡ false = ground arith in rw b (v i c old)
  | inr new ↦
      let same = sym (ap (λ (x : MadeCpu). x.processor_id) new.1) ∙ e in
      let b : (c.processor_id == h.processor_id) ≡ true = ground arith in rw (b, new.0) refl
]

pushed-IsFresh :
    (h : Subtable) (cpu : MadeCpu) (s : Cpus) (p : ℕ)
    → cpu.processor_id ≡ h.processor_id
    → h.processor_id ≢ p
    → IsFresh s p
    → IsFresh (pushed h cpu s) p
unfolding pushed IsFresh
pushed-IsFresh h cpu s p e ne f i c g = elim (get_elem?-snoc s.cpus cpu i c g) [
  | inl old ↦ f i c old
  | inr new ↦ λ q. ne (sym (sym (ap (λ (x : MadeCpu). x.processor_id) new.1) ∙ e) ∙ q)
]

all-pushed-IsFresh :
    (h : Subtable) (cpu : MadeCpu) (s : Cpus) (ps : List ℕ)
    → cpu.processor_id ≡ h.processor_id
    → All (λ p. h.processor_id ≢ p) ps
    → All (IsFresh s) ps
    → All (IsFresh (pushed h cpu s)) ps
all-pushed-IsFresh h cpu s [] e ne f = tt
all-pushed-IsFresh h cpu s (p ∷ ps) e ne f =
    (pushed-IsFresh h cpu s p e ne.0 f.0, all-pushed-IsFresh h cpu s ps e ne.1 f.1)

enabled : Subtable → Bool
enabled h = h.type == 0 && h.lapic_flags == 1

Ready-skip :
    (ids : List ℕ) (h : Subtable) (hs : List Subtable) (s : Cpus)
    → (h.type == 0 && h.lapic_flags == 1) ≡ false
    → Ready ids (h ∷ hs) s
    → Ready ids hs s
Ready-skip ids h hs s e r = record {
  complete = rw e at r.complete;
  indexed = r.indexed;
  fresh = rw e at r.fresh;
  distinct = rw e at r.distinct;
}

Ready-pushed :
    (ids : List ℕ) (h : Subtable) (hs : List Subtable) (s : Cpus) (cpu : MadeCpu)
    → (h.type == 0 && h.lapic_flags == 1) ≡ true
    → cpu.processor_id ≡ h.processor_id
    → Ready ids (h ∷ hs) s
    → Ready ids hs (pushed h cpu s)
unfolding pushed
Ready-pushed ids h hs s cpu e same r =
    let f = rw e at r.fresh in
    let d = rw e at r.distinct in
    let c = rw e at r.complete in
    record {
      complete = numbers-snoc s.cpus cpu (enabled_ids hs) ∙ rw (← same) at c;
      indexed = pushed-IsIndexed h cpu s same f.0 r.indexed;
      fresh = all-pushed-IsFresh h cpu s (enabled_ids hs) same d.0 f.1;
      distinct = d.1;
    }

module _ (blocks : ℕ → ℕ → ℕ) where
  -- The walk ends with a processor for each of the numbers `ids`, in their order, all found by their
  -- numbers, or for want of memory for one of them.
  unfoldable pub IsFound : List ℕ → Walk blocks → Type 0
  IsFound ids (walked s) = (numbers s.cpus ≡ ids) × IsIndexed s
  IsFound ids halted = (n : ℕ) × (blocks n 0 ≡ 0)
  IsFound ids endless = ⊥

  walked-IsFound : (ids : List ℕ) (s : Cpus) → Ready ids [] s → IsFound ids (walked s)
  unfolding IsFound
  walked-IsFound ids s r = (sym (append_nil (numbers s.cpus)) ∙ r.complete, r.indexed)

  halted-IsFound : (ids : List ℕ) (n : ℕ) → blocks n 0 ≡ 0 → IsFound ids halted
  unfolding IsFound
  halted-IsFound ids n e = (n, e)

  add-IsFound :
      (ids : List ℕ) (h : Subtable) (hs : List Subtable) (s : Cpus) (k : Cpus → Walk blocks)
      → Ready ids (h ∷ hs) s
      → ((s' : Cpus) → Ready ids hs s' → IsFound ids (k s'))
      → IsFound ids (or_halted blocks (add_subtable blocks h s) k)
  unfolding add_subtable make_cpu push_cpu or_halted pushed filled_cpu
  add-IsFound ids h hs s k r f = elim (Bool-cases (h.type == 0 && h.lapic_flags == 1)) [
    | inr e ↦ rw e (f s (Ready-skip ids h hs s e r))
    | inl e ↦ elim (Bool-cases (blocks (length s.cpus) 0 == 0)) [
      | inl z ↦ rw (e, z) (halted-IsFound ids (length s.cpus) (ground arith))
      | inr z ↦
          let cpu = filled_cpu (some h) (length s.cpus) (blocks (length s.cpus)) in
          rw (e, z) (f (pushed h cpu s) (Ready-pushed ids h hs s cpu e refl r))
    ]
  ]

  madt_loop-IsFound :
      (ids : List ℕ) (at : ℕ → Subtable) (fuel addr bytes : ℕ) (hs : List Subtable) (s : Cpus)
      → IsLaid at addr bytes hs
      → length hs ≤ fuel
      → bytes < u64
      → Ready ids hs s
      → IsFound ids (madt_loop blocks at fuel addr bytes s)
  unfolding madt_loop
  madt_loop-IsFound ids at zero addr bytes [] s l h b r =
      let z : (bytes == 0) ≡ true = ground arith in rw z (walked-IsFound ids s r)
  madt_loop-IsFound ids at zero addr bytes (x ∷ hs) s l h b r = absurd (omega arith)
  madt_loop-IsFound ids at (suc fuel) addr bytes [] s l h b r =
      let z : (bytes == 0) ≡ true = ground arith in rw z (walked-IsFound ids s r)
  madt_loop-IsFound ids at (suc fuel) addr bytes (x ∷ hs) s l h b r =
      let nz : (bytes == 0) ≡ false = let p = l.1 in let q = l.2 in ground arith in
      rw (nz, l.0, sub64-eq bytes x.length l.2 b)
        (add-IsFound ids x hs s _ r (λ s' r'.
          madt_loop-IsFound ids at fuel (add64 addr x.length) (bytes - x.length) hs s' l.3
            (omega arith) (omega arith) r'))

  empty-IsFresh : (ps : List ℕ) → All (IsFresh (record { cpus = []; ord = λ p. 0 })) ps
  unfolding IsFresh
  empty-IsFresh [] = tt
  empty-IsFresh (p ∷ ps) = ((λ i c e. absurd (some-ne-none c (sym e))), empty-IsFresh ps)

  empty-Ready :
      (hs : List Subtable)
      → Distinct (enabled_ids hs)
      → Ready (enabled_ids hs) hs (record { cpus = []; ord = λ p. 0 })
  unfolding IsIndexed
  empty-Ready hs d = record {
    complete = refl;
    indexed = λ i c e. absurd (some-ne-none c (sym e));
    fresh = empty-IsFresh (enabled_ids hs);
    distinct = d;
  }

  -- Over subtables that fill the MADT one behind the other, with as much fuel as there are of them,
  -- and with different numbers for the processors that they enable, `initialize_cpus` ends
  -- with exactly these processors in the order of the table, each found by its number; or the memory for
  -- one of them is missing.
  pub initialize_cpus-IsFound :
      (at : ℕ → Subtable) (fuel madt len : ℕ) (hs : List Subtable)
      → 44 ≤ len
      → len < u64
      → IsLaid at (add64 madt 44) (len - 44) hs
      → Distinct (enabled_ids hs)
      → length hs ≤ fuel
      → IsFound (enabled_ids hs) (initialize_cpus blocks at fuel (some (madt, len)))
  unfolding initialize_cpus
  initialize_cpus-IsFound at fuel madt len hs lo hi l d h = rw (sub64-eq len 44 lo hi) (
      madt_loop-IsFound (enabled_ids hs) at fuel (add64 madt 44) (len - 44) hs _ l h (omega arith)
        (empty-Ready hs d))
