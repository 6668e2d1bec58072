-- ===== src/Ddm/Drivers.antt =====
-- The list of drivers (src/ddm/drivers.c, src/ddm/main.c): a text of lines with a device's name and
-- the path of its driver. Texts are lists of bytes; the lines are what the C library's `strtok` gives
-- for a line feed, none of them empty. `table_set` and `table_get` are the C library's; the table is
-- the association list of what was set, the last first.
use cthulhu_os.Prelude.{
  ℕ, ◌≡◌, refl, false, Option, none, some, List, [], ◌∷◌, ◌++◌, ◌==◌, if◌then◌else◌, All,
}
use cthulhu_os.Ddm.Pci.{PcieInfo}
use Prim.Native.String.{String}

-- The loop over `dd`, and what stands behind the byte it stops at: `none` is the text behind the
-- line's end, which does not belong to the line.
unfoldable pub split_entry : List ℕ → List ℕ × Option (List ℕ)
split_entry [] = ([], none)
split_entry (c ∷ cs) =
    let rest = split_entry cs in if c == 58 then ([], some cs) else (c ∷ rest.0, rest.1)

-- `load_drivers`; a driver without a colon has no path.
unfoldable pub load_drivers :
    List (List ℕ) → List (List ℕ × Option (List ℕ)) → List (List ℕ × Option (List ℕ))
unfolding split_entry
load_drivers [] drivers = drivers
load_drivers (l ∷ ls) drivers = load_drivers ls (split_entry l ∷ drivers)

-- `load_disk_drives`: the paths of the drivers to load, in the order of the devices; `path_of` is
-- `table_get` for a description.
unfoldable pub load_disk_drives : (String → Option (List ℕ)) → List PcieInfo → List (List ℕ)
load_disk_drives path_of [] = []
load_disk_drives path_of (info ∷ infos) =
    let rest = load_disk_drives path_of infos in
    if info.class == 1 then driver_first (described info.ddescription) rest else rest
  where
    described : Option String → Option (List ℕ)
    described none = none
    described (some text) = path_of text

    driver_first : Option (List ℕ) → List (List ℕ) → List (List ℕ)
    driver_first none rest = rest
    driver_first (some path) rest = path ∷ rest

-- A name without a colon and a path are read back from the line that joins them.
pub split_entry-join :
    (name path : List ℕ)
    → All (λ c. (c == 58) ≡ false) name
    → split_entry (name ++ (58 ∷ path)) ≡ (name, some path)
unfolding split_entry
split_entry-join [] path a = refl
split_entry-join (c ∷ cs) path (e, a) = rw (e, split_entry-join cs path a)

-- A line without a colon has a name and no path of its own.
pub split_entry-name :
    (name : List ℕ) → All (λ c. (c == 58) ≡ false) name → split_entry name ≡ (name, none)
unfolding split_entry
split_entry-name [] a = refl
split_entry-name (c ∷ cs) (e, a) = rw (e, split_entry-name cs a)
