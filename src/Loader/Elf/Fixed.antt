-- ===== src/Loader/Elf/Fixed.antt =====
-- The sections with a fixed address: the first loop of `load_elf_stage_one`.
use cthulhu_os.Prelude.{
  ℕ, ◌+◌, ◌≡◌, ◌⊎◌, true, false, Option, none, some, List, [], ◌∷◌, All, get_elem?,
}
use cthulhu_os.Process.MemMap.{Area, new_area, Hole, null, hole_at, insert_at, request_va_hole}
use cthulhu_os.Process.MemMap.Order.{IsMap}
use cthulhu_os.Loader.Elf.{Elf64Shdr, elf_error_enomem, elf_error_unsupported_section_type_fixaddr}
use cthulhu_os.Loader.Elf.Sections.{Loading, Image, Step, next, stop, crash, passed, fixed_section}
use mathlib.Core.Option

-- The map has an area with these ends.
abbrev pub Has : List Area → ℕ → ℕ → Type 0
Has [] a b = ⊥
Has (m ∷ ms) a b = ((m.vastart ≡ a) × (m.vaend ≡ b)) ⊎ Has ms a b

-- `request_loop` answers with a link of the map.
abbrev Inside : Area → List Area → Option ℕ → Type 0
Inside x ms none = Unit
Inside x ms (some i) = get_elem? (insert_at i x ms) i ≡ some x

-- What `request_va_hole` leads to with the type set: an ordered map with the area at the link, or NULL.
data Requested (start size : ℕ) (ms : List Area) : Hole → Type 0 where
  refused : Requested start size ms null
  granted :
      (i : ℕ)
      → IsMap 0x1000 (insert_at i (new_area start (start + size)) ms)
      → get_elem? (insert_at i (new_area start (start + size)) ms) i
        ≡ some (new_area start (start + size))
      → Requested start size ms (hole_at i (insert_at i (new_area start (start + size)) ms))

module _ (loading : Loading) where
  -- The loop gets through some sections, and `request_va_hole` refuses the addresses of the next one
  -- that is not passed over, in the map that those before have left.
  pub data Refused (base : ℕ) : List Elf64Shdr → Image loading → Type 0 where
    now :
        {sec : Elf64Shdr} {secs : List Elf64Shdr} {s : Image loading}
        → passed false sec ≡ false
        → request_va_hole true s.maps sec.sh_addr sec.sh_size ≡ null
        → Refused base (sec ∷ secs) s
    later :
        {sec sec' : Elf64Shdr} {secs : List Elf64Shdr} {s s' : Image loading}
        → fixed_section loading true base sec s ≡ next sec' s'
        → Refused base secs s'
        → Refused base (sec ∷ secs) s

  -- What the loop comes to from `s0`: all sections have their areas in an ordered map; or a section
  -- got no pages, or is of a type without contents to load; or the code reads through the NULL that
  -- `request_va_hole` has answered for a section.
  abbrev pub Fixed : ℕ → Image loading → List Elf64Shdr → {A : Type 0} → Step loading A → Type 0
  Fixed base s0 secs (next a s) =
      IsMap 0x1000 s.maps
      × All (λ sec. (passed false sec ≡ true) ⊎ Has s.maps sec.sh_addr (sec.sh_addr + sec.sh_size))
          secs
  Fixed base s0 secs (stop e s) =
      IsMap 0x1000 s.maps
      × ((e ≡ elf_error_enomem) ⊎ (e ≡ elf_error_unsupported_section_type_fixaddr))
  Fixed base s0 secs crash = Refused base secs s0

  -- The areas that were there before are there still.
  Kept : Image loading → {A : Type 0} → Step loading A → Type 0
  Kept s (next a s') = (a' b' : ℕ) → Has s.maps a' b' → Has s'.maps a' b'
  Kept s (stop e s') = Unit
  Kept s crash = Unit
