-- ===== src/Rlyeh/Paths.antt =====
-- One file in the tree: when it can be stored, where it is found, and what the other paths find.
use cthulhu_os.Prelude.{
  ℕ, ◌≡◌, refl, sym, ap, ◌∙◌, ◌≢◌, ◌⊎◌, inl, inr, Bool, true, false, Option, none, some, List, [],
  ◌∷◌, ◌==◌, if◌then◌else◌, Bool-cases, arith,
}
use cthulhu_os.Rlyeh.{
  Name, name_eq, PathElement, dir, file, Elements, nil, cons, name_of, Outcome, ok, halted, crash,
  map_ok, mk_dir, change_child, store, find_child, find,
}

pub name_eq→eq : (a b : Name) → name_eq a b ≡ true → a ≡ b
name_eq→eq [] [] h = refl
name_eq→eq [] (d ∷ b) h = cc
name_eq→eq (c ∷ a) [] h = cc
name_eq→eq (c ∷ a) (d ∷ b) h = elim (Bool-cases (c == d)) [
  | inl e ↦
      let rest = name_eq→eq a b (rw e at h) in
      let head : c ≡ d = ground arith in rw (head, rest) refl
  | inr e ↦ let no_eq : false ≡ true = rw e at h in cc
]

pub name_eq_self : (a : Name) → name_eq a a ≡ true
name_eq_self [] = refl
name_eq_self (c ∷ a) = ground (arith, name_eq_self a)

pub ne→name_eq : (a b : Name) → a ≢ b → name_eq a b ≡ false
ne→name_eq a b h = elim (Bool-cases (name_eq a b)) [
  | inl e ↦ absurd (h (name_eq→eq a b e))
  | inr e ↦ e
]

-- Two paths that part at some name: neither is the beginning of the other.
abbrev pub Apart : List Name → List Name → Type 0
Apart [] q = ⊥
Apart (a ∷ p) [] = ⊥
Apart (a ∷ p) (b ∷ q) = (a ≢ b) ⊎ ((a ≡ b) × Apart p q)

abbrev pub IsFile : Outcome (Option PathElement) → Type 0
IsFile (ok (some (file n s o))) = Unit
IsFile (ok (some (dir n es))) = ⊥
IsFile (ok none) = ⊥
IsFile (halted code) = ⊥
IsFile crash = ⊥

-- The path can be stored: no beginning of it, nor all of it, is a file.
abbrev pub IsFree : List Name → PathElement → Type 0
IsFree p (file n s o) = ⊥
IsFree [] (dir n es) = Unit
IsFree (q ∷ ps) (dir n nil) = Unit
IsFree (q ∷ ps) (dir n (cons e es)) =
    if name_eq (name_of e) q then IsFree ps e else IsFree (q ∷ ps) (dir n es)

abbrev plenty : ℕ → Bool
plenty d = true

-- What storing a file at a free path comes to.
pub record Stored (size offset : ℕ) (p : List Name) (e : PathElement) (r : Outcome PathElement)
    : Type 0 where
  pub after : PathElement
  pub name : Name
  pub result : r ≡ ok after
  pub found : find p after ≡ ok (some (file name size offset))
  pub same_name : name_of after ≡ name_of e
  pub others : (q : List Name) → Apart q p → find q after ≡ find q e
  pub stays_free : (q : List Name) → Apart q p → IsFree q e → IsFree q after

record StoredChild (size offset : ℕ) (r : Name) (ps : List Name) (es : Elements)
    (res : Outcome Elements) : Type 0 where
  after : Elements
  name : Name
  result : res ≡ ok after
  found : find_child (find ps) r after ≡ ok (some (file name size offset))
  others :
      (q : Name) (qs : List Name)
      → (q ≢ r) ⊎ ((q ≡ r) × Apart qs ps)
      → find_child (find qs) q after ≡ find_child (find qs) q es
  stays_free :
      (q : Name) (qs : List Name) (n : Name)
      → (q ≢ r) ⊎ ((q ≡ r) × Apart qs ps)
      → IsFree (q ∷ qs) (dir n es)
      → IsFree (q ∷ qs) (dir n after)

find-empty : (qs ps : List Name) (n : Name) → Apart qs ps → find qs (dir n nil) ≡ ok none
unfolding find find_child
find-empty [] ps n a = absurd a
find-empty (q ∷ qs) ps n a = refl

-- A new directory for the path.
StoredChild-nil :
    (size offset : ℕ) (r : Name) (ps : List Name) (res : Outcome PathElement)
    → Stored size offset ps (dir r nil) res
    → StoredChild size offset r ps nil (map_ok (λ e. cons e nil) res)
unfolding find_child
StoredChild-nil size offset r ps res s =
    let own_name : name_eq (name_of s.after) r ≡ true = rw (s.same_name) (name_eq_self r) in
    record {
      after = cons s.after nil;
      name = s.name;
      result = rw (s.result) refl;
      found = rw own_name (s.found);
      others = λ q qs h. elim h [
        | inl ne ↦ rw (other q ne) refl
        | inr eq ↦ rw (here q eq.0) (s.others qs eq.1 ∙ find-empty qs ps r eq.1)
      ];
      stays_free = λ q qs n h free. elim h [
        | inl ne ↦ rw (other q ne) tt
        | inr eq ↦ rw (here q eq.0) (s.stays_free qs eq.1 (empty_free qs))
      ];
    }
  where
    other : (q : Name) → q ≢ r → name_eq (name_of s.after) q ≡ false
    other q ne = ne→name_eq (name_of s.after) q (λ e. ne (sym e ∙ s.same_name))

    here : (q : Name) → q ≡ r → name_eq (name_of s.after) q ≡ true
    here q e = ap (name_eq (name_of s.after)) e ∙ ap (λ m. name_eq m r) s.same_name ∙ name_eq_self r

    empty_free : (qs : List Name) → IsFree qs (dir r nil)
    empty_free [] = tt
    empty_free (q ∷ qs) = tt

-- The first child of the name is changed.
StoredChild-here :
    (size offset : ℕ) (r : Name) (ps : List Name) (e : PathElement) (es : Elements)
    (res : Outcome PathElement)
    → name_eq (name_of e) r ≡ true
    → Stored size offset ps e res
    → StoredChild size offset r ps (cons e es) (map_ok (λ e'. cons e' es) res)
unfolding find_child
StoredChild-here size offset r ps e es res is s =
    let same : name_eq (name_of s.after) r ≡ true = rw (s.same_name) is in
    record {
      after = cons s.after es;
      name = s.name;
      result = rw (s.result) refl;
      found = rw same (s.found);
      others = λ q qs h. elim h [
        | inl ne ↦ rw (other q ne, other' q ne) refl
        | inr eq ↦ rw (here q eq.0, here' q eq.0) (s.others qs eq.1)
      ];
      stays_free = λ q qs n h free. elim h [
        | inl ne ↦ rw (other' q ne) (rw (other q ne) at free)
        | inr eq ↦ rw (here' q eq.0) (s.stays_free qs eq.1 (rw (here q eq.0) at free))
      ];
    }
  where
    named : name_of e ≡ r
    named = name_eq→eq (name_of e) r is

    other : (q : Name) → q ≢ r → name_eq (name_of e) q ≡ false
    other q ne = ne→name_eq (name_of e) q (λ x. ne (sym x ∙ named))

    other' : (q : Name) → q ≢ r → name_eq (name_of s.after) q ≡ false
    other' q ne = ap (λ m. name_eq m q) s.same_name ∙ other q ne

    here : (q : Name) → q ≡ r → name_eq (name_of e) q ≡ true
    here q x = ap (name_eq (name_of e)) x ∙ is

    here' : (q : Name) → q ≡ r → name_eq (name_of s.after) q ≡ true
    here' q x = ap (λ m. name_eq m q) s.same_name ∙ here q x

-- The search goes on behind a child of another name.
StoredChild-there :
    (size offset : ℕ) (r : Name) (ps : List Name) (e : PathElement) (es : Elements)
    (res : Outcome Elements)
    → name_eq (name_of e) r ≡ false
    → StoredChild size offset r ps es res
    → StoredChild size offset r ps (cons e es) (map_ok (cons e) res)
unfolding find_child
StoredChild-there size offset r ps e es res is_not s = record {
  after = cons e s.after;
  name = s.name;
  result = rw (s.result) refl;
  found = rw is_not (s.found);
  others = λ q qs h. elim (Bool-cases (name_eq (name_of e) q)) [
    | inl x ↦ rw x refl
    | inr x ↦ rw x (s.others q qs h)
  ];
  stays_free = λ q qs n h free. elim (Bool-cases (name_eq (name_of e) q)) [
    | inl x ↦ rw x (rw x at free)
    | inr x ↦ rw x (s.stays_free q qs n h (rw x at free))
  ];
}

change_child-StoredChild :
    (size offset : ℕ) (r : Name) (ps : List Name) (n : Name)
    (change : PathElement → Outcome PathElement) (es : Elements)
    → ((e : PathElement) → IsFree ps e → Stored size offset ps e (change e))
    → IsFree (r ∷ ps) (dir n es)
    → StoredChild size offset r ps es (change_child true change r es)
unfolding change_child mk_dir
change_child-StoredChild size offset r ps n change nil ih free =
    StoredChild-nil size offset r ps (change (dir r nil)) (ih (dir r nil) (empty_free ps))
  where
    empty_free : (qs : List Name) → IsFree qs (dir r nil)
    empty_free [] = tt
    empty_free (q ∷ qs) = tt
change_child-StoredChild size offset r ps n change (cons e es) ih free =
    elim (Bool-cases (name_eq (name_of e) r)) [
      | inl x ↦ rw x (StoredChild-here size offset r ps e es (change e) x (ih e (rw x at free)))
      | inr x ↦ rw x (
          StoredChild-there size offset r ps e es (change_child true change r es) x
            (change_child-StoredChild size offset r ps n change es ih (rw x at free)))
    ]

pub store-Stored :
    (size offset : ℕ) (p : List Name) (e : PathElement)
    → IsFree p e
    → Stored size offset p e (store plenty size offset p e)
unfolding store find
store-Stored size offset p (file n s o) free = absurd free
store-Stored size offset [] (dir n es) free = record {
  after = file n size offset;
  name = n;
  result = refl;
  found = refl;
  same_name = refl;
  others = λ q a. absurd (no_path q a);
  stays_free = λ q a free'. absurd (no_path q a);
}
  where
    no_path : (q : List Name) → Apart q [] → ⊥
    no_path [] a = a
    no_path (x ∷ q) a = a
store-Stored size offset (r ∷ ps) (dir n es) free =
    let s =
      change_child-StoredChild size offset r ps n (store plenty size offset ps) es
        (λ e f. store-Stored size offset ps e f) free in
    record {
      after = dir n s.after;
      name = s.name;
      result = rw (s.result) refl;
      found = s.found;
      same_name = refl;
      others = others s.after s.others;
      stays_free = stays s.after s.stays_free;
    }
  where
    others :
        (es' : Elements)
        → ((q : Name) (qs : List Name)
            → (q ≢ r) ⊎ ((q ≡ r) × Apart qs ps)
            → find_child (find qs) q es' ≡ find_child (find qs) q es)
        → (q : List Name) → Apart q (r ∷ ps)
        → find q (dir n es') ≡ find q (dir n es)
    others es' h [] a = absurd a
    others es' h (q ∷ qs) a = h q qs a

    stays :
        (es' : Elements)
        → ((q : Name) (qs : List Name) (n' : Name)
            → (q ≢ r) ⊎ ((q ≡ r) × Apart qs ps)
            → IsFree (q ∷ qs) (dir n' es)
            → IsFree (q ∷ qs) (dir n' es'))
        → (q : List Name) → Apart q (r ∷ ps)
        → IsFree q (dir n es)
        → IsFree q (dir n es')
    stays es' h [] a f = absurd a
    stays es' h (q ∷ qs) a f = h q qs n a f
