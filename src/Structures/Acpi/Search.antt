-- ===== src/Structures/Acpi/Search.antt =====
-- The search for a table (src/kernel/structures/acpi.c: `acpisdt_checksum`, `find_table_general`,
-- `init_table_acpi`).
use cthulhu_os.Prelude.{
  ℕ, zero, suc, ◌+◌, ◌%◌, ◌<◌, ◌≡◌, ◌≢◌, inl, inr, true, false, Option, none, some, List, [], ◌∷◌,
  Bool-cases, ◌==◌, u8, arith,
}
use cthulhu_os.Structures.Acpi.{
  Bytes, sdt_length, checksum_loop, acpisdt_checksum, is_named, entry_count, entry_table,
  table_loop, Tables,
}

-- The sum of the bytes, as a number, and the names that stand in memory.
abbrev pub byte_sum : Bytes → ℕ → ℕ → ℕ
byte_sum m a zero = 0
byte_sum m a (suc n) = m a + byte_sum m (suc a) n

abbrev pub Named : Bytes → ℕ → List ℕ → Type 0
Named m a [] = Unit
Named m a (c ∷ name) = (m a ≡ c) × Named m (suc a) name

checksum_loop-byte_sum :
    (m : Bytes) (a n sum : ℕ) → sum < u8 → checksum_loop m a n sum ≡ (sum + byte_sum m a n) % u8
unfolding checksum_loop
checksum_loop-byte_sum m a zero sum h = omega arith
checksum_loop-byte_sum m a (suc n) sum h =
    omega (arith, checksum_loop-byte_sum m (suc a) n ((sum + m a) % u8) (omega arith))

-- A table of the name: its bytes sum up to 0 modulo 256.
pub record IsTable (m : Bytes) (name : List ℕ) (h : ℕ) : Type 0 where
  pub named : Named m h name
  pub checked : byte_sum m h (sdt_length m h) % u8 ≡ 0

pub acpisdt_checksum-true :
    (m : Bytes) (h : ℕ) → acpisdt_checksum m h ≡ true → byte_sum m h (sdt_length m h) % u8 ≡ 0
unfolding acpisdt_checksum
acpisdt_checksum-true m h e =
    ground (arith, checksum_loop-byte_sum m h (sdt_length m h) 0 (omega arith))

pub acpisdt_checksum-false :
    (m : Bytes) (h : ℕ) → acpisdt_checksum m h ≡ false → ¬ (byte_sum m h (sdt_length m h) % u8 ≡ 0)
unfolding acpisdt_checksum
acpisdt_checksum-false m h e k =
    ground (arith, checksum_loop-byte_sum m h (sdt_length m h) 0 (omega arith))

pub is_named-true : (m : Bytes) (a : ℕ) (name : List ℕ) → is_named m a name ≡ true → Named m a name
is_named-true m a [] e = tt
is_named-true m a (c ∷ name) e = elim (Bool-cases (m a == c)) [
  | inl h ↦ (ground arith, is_named-true m (suc a) name (rw h at e))
  | inr h ↦ ground arith
]

is_named-false : (m : Bytes) (a : ℕ) (name : List ℕ) → is_named m a name ≡ false → ¬ Named m a name
is_named-false m a [] e k = ground arith
is_named-false m a (c ∷ name) e k = elim (Bool-cases (m a == c)) [
  | inl h ↦ is_named-false m (suc a) name (rw h at e) k.1
  | inr h ↦ ground (arith, k.0)
]

-- The first of the entries from `i` on that is a table of the name.
pub data IsFirst (m : Bytes) (virtual : ℕ → ℕ) (name : List ℕ) (list width : ℕ)
    : ℕ → ℕ → Option ℕ → Type 0 where
  absent : {i : ℕ} → IsFirst m virtual name list width i 0 none
  here :
      {i n : ℕ}
      → IsTable m name (entry_table m virtual list width i)
      → IsFirst m virtual name list width i (suc n) (some (entry_table m virtual list width i))
  there :
      {i n : ℕ} {r : Option ℕ}
      → ¬ IsTable m name (entry_table m virtual list width i)
      → IsFirst m virtual name list width (suc i) n r
      → IsFirst m virtual name list width i (suc n) r

pub table_loop-IsFirst :
    (m : Bytes) (virtual : ℕ → ℕ) (name : List ℕ) (list width i n : ℕ)
    → IsFirst m virtual name list width i n (table_loop m virtual name list width i n)
unfolding table_loop
table_loop-IsFirst m virtual name list width i zero = absent
table_loop-IsFirst m virtual name list width i (suc n) =
    let h = entry_table m virtual list width i in
    let next = table_loop-IsFirst m virtual name list width (suc i) n in
    elim (Bool-cases (is_named m h name)) [
      | inl a ↦ elim (Bool-cases (acpisdt_checksum m h)) [
        | inl b ↦
            rw (a, b)
              (here
                record { named = is_named-true m h name a; checked = acpisdt_checksum-true m h b })
        | inr b ↦ rw (a, b) (there (λ t. acpisdt_checksum-false m h b t.checked) next)
      ]
      | inr a ↦ rw a (there (λ t. is_named-false m h name a t.named) next)
    ]

-- What `find_table_general` answers: the first table of the name in the RSDT under version 1 and in
-- the XSDT otherwise, or NULL without that root table.
pub data Answers (m : Bytes) (virtual : ℕ → ℕ) (name : List ℕ) (s : Tables)
    : Option ℕ → Type 0 where
  in_rsdt :
      {t : ℕ} {r : Option ℕ}
      → s.acpi_version ≡ 1
      → s.rsdt ≡ some t
      → IsFirst m virtual name (t + 36) 4 0 (entry_count (sdt_length m t) 4) r
      → Answers m virtual name s r
  in_xsdt :
      {t : ℕ} {r : Option ℕ}
      → s.acpi_version ≢ 1
      → s.xsdt ≡ some t
      → IsFirst m virtual name (t + 40) 8 0 (entry_count (sdt_length m t) 8) r
      → Answers m virtual name s r
  no_rsdt : s.acpi_version ≡ 1 → s.rsdt ≡ none → Answers m virtual name s none
  no_xsdt : s.acpi_version ≢ 1 → s.xsdt ≡ none → Answers m virtual name s none

-- What holds of the table that was found, if one was.
abbrev pub OfTable : (ℕ → Type 0) → Option ℕ → Type 0
OfTable P none = Unit
OfTable P (some h) = P h

first-IsTable :
    (m : Bytes) (virtual : ℕ → ℕ) (name : List ℕ) (list width i n : ℕ) (r : Option ℕ)
    → IsFirst m virtual name list width i n r
    → OfTable (IsTable m name) r
first-IsTable m virtual name list width i n r absent = tt
first-IsTable m virtual name list width i n r (here t) = t
first-IsTable m virtual name list width i n r (there {i = j} {n = k} f rest) =
    first-IsTable m virtual name list width (suc j) k r rest

pub Answers-IsTable :
    (m : Bytes) (virtual : ℕ → ℕ) (name : List ℕ) (s : Tables) (r : Option ℕ)
    → Answers m virtual name s r
    → OfTable (IsTable m name) r
Answers-IsTable m virtual name s r (in_rsdt {t = t} v e f) =
    first-IsTable m virtual name (t + 36) 4 0 (entry_count (sdt_length m t) 4) r f
Answers-IsTable m virtual name s r (in_xsdt {t = t} v e f) =
    first-IsTable m virtual name (t + 40) 8 0 (entry_count (sdt_length m t) 8) r f
Answers-IsTable m virtual name s r (no_rsdt v e) = tt
Answers-IsTable m virtual name s r (no_xsdt v e) = tt
