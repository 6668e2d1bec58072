-- ===== src/Rlyeh/Load.antt =====
-- The whole header: every file is found where the header puts it.
use cthulhu_os.Prelude.{
  ℕ, ◌+◌, ◌%◌, ◌≡◌, refl, sym, ◌∙◌, ◌≢◌, inl, inr, Bool, true, some, List, [], ◌∷◌, u32, All,
}
use cthulhu_os.Rlyeh.{
  PathElement, dir, file, nil, Outcome, ok, mk_dir, store, FileInfo, load_file, load_header, Initrd,
  init_initramfs, find, get_path,
}
use cthulhu_os.Rlyeh.Paths.{Apart, IsFree, store-Stored}

abbrev plenty : ℕ → ℕ → Bool
plenty i d = true

-- No path of the header is the beginning of another, nor empty.
abbrev pub IsHeader : List FileInfo → Type 0
IsHeader [] = Unit
IsHeader (f ∷ fs) = (f.parts ≢ []) × All (λ (g : FileInfo). Apart f.parts g.parts) fs × IsHeader fs

-- The file's path leads to its size and its place in the ramdisk.
abbrev pub IsFound : ℕ → PathElement → FileInfo → Type 0
IsFound dataoffset root f =
    (n : List ℕ) × (get_path f.parts root
      ≡ ok (some (file n f.fsize ((dataoffset + f.offset) % u32))))

Apart-sym : (p q : List (List ℕ)) → Apart p q → Apart q p
Apart-sym [] q a = absurd a
Apart-sym (x ∷ p) [] a = a
Apart-sym (x ∷ p) (y ∷ q) (inl ne) = inl (λ e. ne (sym e))
Apart-sym (x ∷ p) (y ∷ q) (inr eq) = inr (sym eq.0, Apart-sym p q eq.1)

get_path-find : (p : List (List ℕ)) (root : PathElement) → p ≢ [] → get_path p root ≡ find p root
unfolding get_path
get_path-find [] root ne = absurd (ne refl)
get_path-find (x ∷ p) root ne = refl

load_file-store :
    (dataoffset : ℕ) (f : FileInfo) (root : PathElement)
    → f.parts ≢ []
    → load_file (plenty 0) dataoffset f root
      ≡ store (plenty 0) f.fsize ((dataoffset + f.offset) % u32) f.parts root
unfolding load_file
load_file-store dataoffset f root ne = go f.parts ne
  where
    go :
        (p : List (List ℕ))
        → p ≢ []
        → load_file (plenty 0) dataoffset (record f { parts = p }) root
          ≡ store (plenty 0) f.fsize ((dataoffset + f.offset) % u32) p root
    go [] ne' = absurd (ne' refl)
    go (x ∷ p) ne' = refl

record Loaded (dataoffset : ℕ) (fs : List FileInfo) (root : PathElement) (r : Outcome PathElement)
    : Type 0 where
  after : PathElement
  result : r ≡ ok after
  found : All (IsFound dataoffset after) fs
  others :
      (q : List (List ℕ)) → All (λ (f : FileInfo). Apart q f.parts) fs → find q after ≡ find q root

still-IsFree :
    (p : List (List ℕ)) (root after : PathElement) (fs : List FileInfo)
    → ((q : List (List ℕ)) → Apart q p → IsFree q root → IsFree q after)
    → All (λ (g : FileInfo). Apart p g.parts) fs
    → All (λ (g : FileInfo). IsFree g.parts root) fs
    → All (λ (g : FileInfo). IsFree g.parts after) fs
still-IsFree p root after [] h a free = tt
still-IsFree p root after (g ∷ gs) h a free =
    (h g.parts (Apart-sym p g.parts a.0) free.0, still-IsFree p root after gs h a.1 free.1)

load_header-Loaded :
    (dataoffset : ℕ) (fs : List FileInfo) (root : PathElement)
    → IsHeader fs
    → All (λ (f : FileInfo). IsFree f.parts root) fs
    → Loaded dataoffset fs root (load_header plenty dataoffset fs root)
unfolding load_header
load_header-Loaded dataoffset [] root v free = record {
  after = root;
  result = refl;
  found = tt;
  others = λ q a. refl;
}
load_header-Loaded dataoffset (f ∷ fs) root v free =
    let s = store-Stored f.fsize ((dataoffset + f.offset) % u32) f.parts root free.0 in
    let l =
      load_header-Loaded dataoffset fs s.after v.2
        (still-IsFree f.parts root s.after fs s.stays_free v.1 free.1) in
    rw (load_file-store dataoffset f root v.0, s.result)
      (record {
        after = l.after;
        result = l.result;
        found =
            ((s.name, get_path-find f.parts l.after v.0 ∙ l.others f.parts v.1 ∙ s.found), l.found);
        others = λ q a. l.others q a.1 ∙ s.others q a.0;
      })

All-IsFree : (fs : List FileInfo) → All (λ (f : FileInfo). IsFree f.parts (dir [] nil)) fs
All-IsFree [] = tt
All-IsFree (f ∷ fs) = (go f.parts, All-IsFree fs)
  where
    go : (p : List (List ℕ)) → IsFree p (dir [] nil)
    go [] = tt
    go (x ∷ p) = tt

-- With a valid magic number and enough memory, a header in which no path is empty or the beginning
-- of another one is loaded without an error, and `get_path` of every path of it finds the file with
-- its size and its place.
pub init_initramfs-get_path :
    (m : Initrd)
    → m.magic 0 ≡ 0xDE
    → m.magic 1 ≡ 0xAF
    → m.magic 2 ≡ 0xD0
    → m.magic 3 ≡ 0x55
    → IsHeader m.header
    → (root : PathElement) × (init_initramfs plenty (some m) ≡ ok root)
      × All (IsFound m.dataoffset root) m.header
unfolding init_initramfs mk_dir
init_initramfs-get_path m a b c d v =
    let l = load_header-Loaded m.dataoffset m.header (dir [] nil) v (All-IsFree m.header) in
    (l.after, rw (a, b, c, d) (l.result), l.found)
