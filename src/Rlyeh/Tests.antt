-- ===== src/Rlyeh/Tests.antt =====
-- A ramdisk with two files: "/a/b" and "/a/c".
use cthulhu_os.Prelude.{◌≡◌, refl, inl, inr, true, some, [], ◌∷◌, All, arith, ◌==◌, if◌then◌else◌}
use cthulhu_os.Rlyeh.{PathElement, FileInfo, ok, Initrd, init_initramfs}
use cthulhu_os.Rlyeh.Load.{IsHeader, IsFound, init_initramfs-get_path}

abbrev a_b : FileInfo
a_b = record { offset = 0; fsize = 10; parts = (0x61 ∷ []) ∷ (0x62 ∷ []) ∷ [] }

abbrev a_c : FileInfo
a_c = record { offset = 10; fsize = 20; parts = (0x61 ∷ []) ∷ (0x63 ∷ []) ∷ [] }

abbrev two_files : Initrd
two_files = record {
  magic = λ i. if i == 0 then 0xDE else if i == 1 then 0xAF else if i == 2 then 0xD0 else 0x55;
  dataoffset = 1000;
  header = a_b ∷ a_c ∷ [];
}

two_files-IsHeader : IsHeader two_files.header
two_files-IsHeader =
    (λ e. ground arith, (inr (refl, inl (λ e. ground arith)), tt), (λ e. ground arith, tt, tt))

init_initramfs-get_path_example :
    (root : PathElement) × (init_initramfs (λ i d. true) (some two_files) ≡ ok root)
    × All (IsFound 1000 root) (a_b ∷ a_c ∷ [])
init_initramfs-get_path_example =
    init_initramfs-get_path two_files refl refl refl refl two_files-IsHeader
