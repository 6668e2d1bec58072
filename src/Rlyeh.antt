-- ===== src/Rlyeh.antt =====
-- The initial ramdisk (src/kernel/rlyeh/rlyeh.c): the tree of directories and files that
-- `load_header` builds, and `get_path`. A name is the list of its characters; `strtok` is the C
-- library's, so a path comes as the list of its parts. `memory d` tells whether the allocations of
-- the directory at depth `d` succeed.
pub mod Paths
pub mod Load
mod Tests
use cthulhu_os.Prelude.{
  ℕ, zero, suc, ◌+◌, ◌≡◌, Bool, true, false, ◌&&◌, Option, none, some, List, [], ◌∷◌, ◌++◌, ◌%◌,
  ◌==◌, if◌then◌else◌, u32,
}

abbrev pub Name : Type 0
Name = List ℕ

-- `strcmp(a, b) == 0`
abbrev pub name_eq : Name → Name → Bool
name_eq [] [] = true
name_eq [] (d ∷ b) = false
name_eq (c ∷ a) [] = false
name_eq (c ∷ a) (d ∷ b) = c == d && name_eq a b

-- `path_element_t`, with `dir_entry_t` and `file_entry_t` in it.
mutual
  pub data PathElement : Type 0 where
    dir : Name → Elements → PathElement
    file : Name → ℕ → ℕ → PathElement

  pub data Elements : Type 0 where
    nil : Elements
    cons : PathElement → Elements → Elements

abbrev pub name_of : PathElement → Name
name_of (dir n es) = n
name_of (file n size offset) = n

-- What the code comes to: a value; the `error` that stops the kernel, with its code; or a read
-- through NULL or through the wrong member of the union.
pub data Outcome (A : Type 0) : Type 0 where
  ok : A → Outcome A
  halted : ℕ → Outcome A
  crash : Outcome A

abbrev pub map_ok : {A B : Type 0} → (A → B) → Outcome A → Outcome B
map_ok f (ok a) = ok (f a)
map_ok f (halted code) = halted code
map_ok f crash = crash

-- `mk_dir`: without memory the kernel stops with `INITRD_ERROR_NOMEM`.
unfoldable pub mk_dir : Bool → Name → Outcome PathElement
mk_dir memory name = if memory then ok (dir name nil) else halted 3

abbrev pub and_then : {A B : Type 0} → Outcome A → (A → Outcome B) → Outcome B
and_then (ok a) k = k a
and_then (halted code) k = halted code
and_then crash k = crash

-- The search by `find_by_name`, with a new directory pushed where there is none of the name;
-- `change` is what the rest of the loop does at the element.
unfoldable pub change_child :
    Bool → (PathElement → Outcome PathElement) → Name → Elements → Outcome Elements
unfolding mk_dir
change_child memory change n nil = map_ok (λ e. cons e nil) (and_then (mk_dir memory n) change)
change_child memory change n (cons e es) =
    let rest = map_ok (cons e) (change_child memory change n es) in
    if name_eq (name_of e) n then map_ok (λ e'. cons e' es) (change e) else rest

-- The rest of the path below an element; at its end the element becomes the file. An element that
-- is a file already is not a directory whose entry can be deleted.
unfoldable pub store : (ℕ → Bool) → ℕ → ℕ → List Name → PathElement → Outcome PathElement
unfolding change_child
store memory size offset [] (dir n es) = ok (file n size offset)
store memory size offset [] (file n s o) = crash
store memory size offset (p ∷ ps) (file n s o) = halted 4
store memory size offset (p ∷ ps) (dir n es) =
    map_ok (dir n) (change_child (memory 0) (store (λ d. memory (suc d)) size offset ps) p es)

-- `lfile_info_t`, with the parts of its path.
pub record FileInfo : Type 0 where
  pub offset : ℕ
  pub fsize : ℕ
  pub parts : List Name

-- A round of `load_header`. `strtok` answers NULL for a path without a part.
unfoldable pub load_file : (ℕ → Bool) → ℕ → FileInfo → PathElement → Outcome PathElement
unfolding store
load_file memory dataoffset f root = go f.parts
  where
    go : List Name → Outcome PathElement
    go [] = crash
    go (p ∷ ps) = store memory f.fsize ((dataoffset + f.offset) % u32) (p ∷ ps) root

unfoldable pub load_header : (ℕ → ℕ → Bool) → ℕ → List FileInfo → PathElement → Outcome PathElement
unfolding load_file
load_header memory dataoffset [] root = ok root
load_header memory dataoffset (f ∷ fs) root =
    and_then (load_file (memory 0) dataoffset f root)
      (load_header (λ i. memory (suc i)) dataoffset fs)

-- `cthulhu_initr_t`
pub record Initrd : Type 0 where
  pub magic : ℕ → ℕ
  pub dataoffset : ℕ
  pub header : List FileInfo

-- `init_initramfs`; `none` is a boot without the module. `memory 0 0` is the root's.
unfoldable pub init_initramfs : (ℕ → ℕ → Bool) → Option Initrd → Outcome PathElement
unfolding mk_dir load_header
init_initramfs memory none = halted 1
init_initramfs memory (some m) =
    if m.magic 0 == 0xDE && m.magic 1 == 0xAF && m.magic 2 == 0xD0 && m.magic 3 == 0x55
    then and_then (mk_dir (memory 0 0) []) (load_header (λ i. memory (suc i)) m.dataoffset m.header)
    else halted 2

-- `array_find_by_pred`, and what follows at the element; `none` is NULL.
unfoldable pub find_child :
    (PathElement → Outcome (Option PathElement)) → Name → Elements → Outcome (Option PathElement)
find_child go n nil = ok none
find_child go n (cons e es) =
    let rest = find_child go n es in if name_eq (name_of e) n then go e else rest

unfoldable pub find : List Name → PathElement → Outcome (Option PathElement)
unfolding find_child
find [] e = ok (some e)
find (p ∷ ps) (file n s o) = crash
find (p ∷ ps) (dir n es) = find_child (find ps) p es

unfoldable pub get_path : List Name → PathElement → Outcome (Option PathElement)
unfolding find
get_path [] root = crash
get_path (p ∷ ps) root = find (p ∷ ps) root

-- What `delete_entry` frees, in its order: the children, then the parts of the element.
pub data Freed : Type 0 where
  array entry name element : Name → Freed

unfoldable mutual
  pub delete_entry : PathElement → List Freed
  delete_entry (dir n es) = delete_children es ++ (array n ∷ entry n ∷ name n ∷ element n ∷ [])
  delete_entry (file n s o) = entry n ∷ name n ∷ element n ∷ []

  pub delete_children : Elements → List Freed
  delete_children nil = []
  delete_children (cons e es) = delete_entry e ++ delete_children es
