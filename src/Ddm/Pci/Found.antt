-- ===== src/Ddm/Pci/Found.antt =====
-- Which devices the search finds (src/ddm/pci.c), where memory does not run out.
use cthulhu_os.Prelude.{
  ℕ, zero, suc, Bool, true, List, [], ◌∷◌, ◌++◌, map, leb, ◌==◌, if◌then◌else◌,
}
use cthulhu_os.Ddm.Pci.{PcieInfo}

-- The numbers from `k` on, `n` of them.
abbrev pub numbers : ℕ → ℕ → List ℕ
numbers k zero = []
numbers k (suc n) = k ∷ numbers (suc k) n

abbrev pub flat_map {ℓ κ} : {A : Type ℓ} {B : Type κ} → (A → List B) → List A → List B
flat_map f [] = []
flat_map f (x ∷ xs) = f x ++ flat_map f xs

-- A function without a device answers 0xFFFF for the vendor.
abbrev pub present : List PcieInfo → List PcieInfo
present [] = []
present (x ∷ xs) = if x.vendor_id == 0xFFFF then present xs else x ∷ present xs

-- The functions of a device up to the first whose header says that it is the only one.
abbrev pub up_to_single : List PcieInfo → List PcieInfo
up_to_single [] = []
up_to_single (x ∷ xs) = if leb 128 x.htype then x ∷ up_to_single xs else x ∷ []

-- What is to be found on a device, and on the first `n` buses.
abbrev pub on_device : (ℕ → PcieInfo) → List PcieInfo
on_device info = up_to_single (present (map info (numbers 0 7)))

abbrev pub bus_devices : (ℕ → ℕ → ℕ → PcieInfo) → ℕ → List PcieInfo
bus_devices info b = flat_map (λ j. on_device (info b j)) (numbers 0 32)

abbrev pub on_buses : (ℕ → ℕ → ℕ → PcieInfo) → ℕ → List PcieInfo
on_buses info n = flat_map (bus_devices info) (numbers 0 n)

abbrev always : ℕ → Bool
always n = true
