-- ===== src/Ddm/Pci/Describe.antt =====
-- What the device driver manager calls a device (src/ddm/pci.c): the table `descriptions`, which
-- `load_pci_info` fills, and `description` of the classes. A rule is one branch of the chain of tests
-- in the code; the first that applies names the triple of class, subclass and interface.
use cthulhu_os.Prelude.{
  ℕ, zero, suc, ◌+◌, ◌*◌, Bool, true, ◌&&◌, Option, none, some, List, [], ◌∷◌, ◌++◌, ltb, ◌==◌,
  if◌then◌else◌, get_elem?,
}
use Prim.Native.String.{String}

-- The test on the interface in a rule.
pub data Interface : Type 0 where
  exactly : ℕ → Interface
  any positive : Interface

-- `cc == class && sc == subclass && ...`
pub record Rule : Type 0 where
  pub class : ℕ
  pub subclass : ℕ
  pub interface : Interface
  pub text : String

abbrev rule : ℕ → ℕ → Interface → String → Rule
rule c sc p text = record { class = c; subclass = sc; interface = p; text = text }

abbrev pub class_0 : List Rule
class_0 =
    rule 0 0 (exactly 0) "Any device except for VGA-Compatible devices"
    ∷ rule 0 0 (exactly 1) "VGA-Compatible Device"
    ∷ []

abbrev pub class_1 : List Rule
class_1 =
    rule 1 0 (exactly 0) "SCSI Bus Controller"
    ∷ rule 1 1 any "IDE Controller"
    ∷ rule 1 2 (exactly 0) "Floppy Disk Controller"
    ∷ rule 1 3 (exactly 0) "IPI Bus Controller"
    ∷ rule 1 4 (exactly 0) "RAID Controller"
    ∷ rule 1 5 (exactly 0x20) "ATA Controller (Single DMA)"
    ∷ rule 1 5 (exactly 0x30) "ATA Controller (Chained DMA)"
    ∷ rule 1 6 (exactly 0) "Serial ATA (Vendor Specific Interface)"
    ∷ rule 1 6 (exactly 1) "Serial ATA (AHCI 1.0)"
    ∷ rule 1 7 (exactly 0) "Serial Attached SCSI (SAS)"
    ∷ rule 1 0x80 (exactly 0) "Other Mass Storage Controller "
    ∷ []

abbrev pub class_2 : List Rule
class_2 =
    rule 2 0 (exactly 0) "Ethernet Controller"
    ∷ rule 2 1 (exactly 0) "Token Ring Controller"
    ∷ rule 2 2 (exactly 0) "FDDI Controller"
    ∷ rule 2 3 (exactly 0) "ATM Controller"
    ∷ rule 2 4 (exactly 0) "ISDN Controller"
    ∷ rule 2 5 (exactly 0) "WorldFip Controller"
    ∷ rule 2 6 any "PICMG 2.14 Multi Computing"
    ∷ rule 2 0x80 (exactly 0) "Other Network Controller"
    ∷ []

abbrev pub class_3 : List Rule
class_3 =
    rule 3 0 (exactly 0) "VGA-Compatible Controller"
    ∷ rule 3 0 (exactly 1) "8512-Compatible Controller"
    ∷ rule 3 1 (exactly 0) "XGA Controller"
    ∷ rule 3 2 (exactly 0) "3D Controller (Not VGA-Compatible)"
    ∷ rule 3 0x80 (exactly 0) "Other Display Controller"
    ∷ []

abbrev pub class_4 : List Rule
class_4 =
    rule 4 0 (exactly 0) "Video Device"
    ∷ rule 4 1 (exactly 0) "Audio Device"
    ∷ rule 4 2 (exactly 0) "Computer Telephony Device"
    ∷ rule 4 0x80 (exactly 0) "Other Multimedia Device"
    ∷ []

abbrev pub class_5 : List Rule
class_5 =
    rule 5 0 (exactly 0) "RAM Controller"
    ∷ rule 5 1 (exactly 0) "Flash Controller"
    ∷ rule 5 0x80 (exactly 0) "Other Memory Controller"
    ∷ []

abbrev pub class_6 : List Rule
class_6 =
    rule 6 0 (exactly 0) "Host Bridge"
    ∷ rule 6 1 (exactly 0) "ISA Bridge"
    ∷ rule 6 2 (exactly 0) "EISA Bridge"
    ∷ rule 6 3 (exactly 0) "MCA Bridge"
    ∷ rule 6 4 (exactly 0) "PCI-to-PCI Bridge"
    ∷ rule 6 4 (exactly 1) "PCI-to-PCI Bridge (Subtractive Decode)"
    ∷ rule 6 5 (exactly 0) "PCMCIA Bridge"
    ∷ rule 6 6 (exactly 0) "NuBus Bridge"
    ∷ rule 6 7 (exactly 0) "CardBus Bridge"
    ∷ rule 6 8 any "RACEway Bridge"
    ∷ rule 6 9 (exactly 0x40) "PCI-to-PCI Bridge (Semi-Transparent, Primary)"
    ∷ rule 6 9 (exactly 0x80) "PCI-to-PCI Bridge (Semi-Transparent, Secondary)"
    ∷ rule 6 0xA (exactly 0) "InfiniBrand-to-PCI Host Bridge"
    ∷ rule 6 0x80 (exactly 0) "Other Bridge Device"
    ∷ []

abbrev pub class_7 : List Rule
class_7 =
    rule 7 0 (exactly 0) "Generic XT-Compatible Serial Controller"
    ∷ rule 7 0 (exactly 1) "16450-Compatible Serial Controller"
    ∷ rule 7 0 (exactly 2) "16550-Compatible Serial Controller"
    ∷ rule 7 0 (exactly 3) "16650-Compatible Serial Controller"
    ∷ rule 7 0 (exactly 4) "16750-Compatible Serial Controller"
    ∷ rule 7 0 (exactly 5) "16850-Compatible Serial Controller"
    ∷ rule 7 0 (exactly 6) "16950-Compatible Serial Controller"
    ∷ rule 7 1 (exactly 0) "Parallel Port"
    ∷ rule 7 1 (exactly 1) "Bi-Directional Parallel Port"
    ∷ rule 7 1 (exactly 2) "ECP 1.X Compliant Parallel Port"
    ∷ rule 7 1 (exactly 3) "IEEE 1284 Controller"
    ∷ rule 7 1 (exactly 0xFE) "IEEE 1284 Target Device"
    ∷ rule 7 2 (exactly 0) "Multiport Serial Controller"
    ∷ rule 7 3 (exactly 0) "Generic Modem"
    ∷ rule 7 3 (exactly 1) "Hayes Compatible Modem (16450-Compatible Interface)"
    ∷ rule 7 3 (exactly 2) "Hayes Compatible Modem (16550-Compatible Interface)"
    ∷ rule 7 3 (exactly 3) "Hayes Compatible Modem (16650-Compatible Interface)"
    ∷ rule 7 3 (exactly 4) "Hayes Compatible Modem (16750-Compatible Interface)"
    ∷ rule 7 4 (exactly 0) "IEEE 488.1/2 (GPIB) Controller"
    ∷ rule 7 5 (exactly 0) "Smart Card"
    ∷ rule 7 0x80 (exactly 0) "Other Communications Device"
    ∷ []

abbrev pub class_8 : List Rule
class_8 =
    rule 8 0 (exactly 0) "Generic 8259 PIC"
    ∷ rule 8 0 (exactly 1) "ISA PIC"
    ∷ rule 8 0 (exactly 2) "EISA PIC"
    ∷ rule 8 0 (exactly 0x10) "I/O APIC Interrupt Controller"
    ∷ rule 8 0 (exactly 0x20) "I/O(x) APIC Interrupt Controller"
    ∷ rule 8 1 (exactly 0) "Generic 8237 DMA Controller"
    ∷ rule 8 1 (exactly 1) "ISA DMA Controller"
    ∷ rule 8 1 (exactly 2) "EISA DMA Controller"
    ∷ rule 8 2 (exactly 0) "Generic 8254 System Timer"
    ∷ rule 8 2 (exactly 1) "ISA System Timer"
    ∷ rule 8 2 (exactly 2) "EISA System Timer"
    ∷ rule 8 3 (exactly 0) "Generic RTC Controller"
    ∷ rule 8 3 (exactly 1) "ISA RTC Controller"
    ∷ rule 8 4 (exactly 0) "Generic PCI Hot-Plug Controller"
    ∷ rule 8 0x80 (exactly 0) "Other System Peripheral"
    ∷ []

abbrev pub class_9 : List Rule
class_9 =
    rule 9 0x0 (exactly 0) "Keyboard Controller"
    ∷ rule 9 0x1 (exactly 0) "Digitizer"
    ∷ rule 9 0x2 (exactly 0) "Mouse Controller"
    ∷ rule 9 0x3 (exactly 0) "Scanner Controller"
    ∷ rule 9 0x4 (exactly 0) "Gameport Controller (Generic)"
    ∷ rule 9 0x4 (exactly 0x10) "Gameport Contrlller (Legacy)"
    ∷ rule 9 0x80 (exactly 0) "Other Input Controller"
    ∷ []

abbrev pub class_10 : List Rule
class_10 =
    rule 10 0x0 (exactly 0) "Generic Docking Station"
    ∷ rule 10 0x80 (exactly 0) "Other Docking Station"
    ∷ []

abbrev pub class_11 : List Rule
class_11 =
    rule 11 0x0 (exactly 0) "386 Processor"
    ∷ rule 11 0x1 (exactly 0) "486 Processor"
    ∷ rule 11 0x2 (exactly 0) "Pentium Processor"
    ∷ rule 11 0x10 (exactly 0) "Alpha Processor"
    ∷ rule 11 0x20 (exactly 0) "PowerPC Processor"
    ∷ rule 11 0x30 (exactly 0) "MIPS Processor"
    ∷ rule 11 0x40 (exactly 0) "Co-Processor"
    ∷ []

abbrev pub class_12 : List Rule
class_12 =
    rule 12 0x0 (exactly 0) "IEEE 1394 Controller (FireWire)"
    ∷ rule 12 0x0 (exactly 0x10) "IEEE 1394 Controller (1394 OpenHCI Spec)"
    ∷ rule 12 0x1 (exactly 0) "ACCESS.bus"
    ∷ rule 12 0x2 (exactly 0) "SSA"
    ∷ rule 12 0x3 (exactly 0) "USB (Universal Host Controller Spec)"
    ∷ rule 12 0x3 (exactly 0x10) "USB (Open Host Controller Spec)"
    ∷ rule 12 0x3 (exactly 0x20) "USB2 Host Controller (Intel Enhanced Host Controller Interface)"
    ∷ rule 12 0x3 (exactly 0x30) "USB3 XHCI Controller"
    ∷ rule 12 0x3 (exactly 0x80) "Unspecified USB Controller"
    ∷ rule 12 0xFE any "USB (Not Host Controller)"
    ∷ rule 12 0x4 (exactly 0) "Fibre Channel"
    ∷ rule 12 0x5 (exactly 0) "SMBus"
    ∷ rule 12 0x6 (exactly 0) "InfiniBand"
    ∷ rule 12 0x7 (exactly 0) "IPMI SMIC Interface"
    ∷ rule 12 0x7 (exactly 1) "IPMI Kybd Controller Style Interface"
    ∷ rule 12 0x7 (exactly 2) "IPMI Block Transfer Interface"
    ∷ rule 12 0x8 (exactly 0) "SERCOS Interface Standard (IEC 61491)"
    ∷ rule 12 0x9 (exactly 0) "CANbus"
    ∷ []

abbrev pub class_13 : List Rule
class_13 =
    rule 13 0x0 (exactly 0) "iRDA Compatible Controller"
    ∷ rule 13 0x1 (exactly 0) "Consumer IR Controller"
    ∷ rule 13 0x10 (exactly 0) "RF Controller"
    ∷ rule 13 0x11 (exactly 0) "Bluetooth Controller"
    ∷ rule 13 0x12 (exactly 0) "Broadband Controller"
    ∷ rule 13 0x20 (exactly 0) "Ethernet Controller (802.11a)"
    ∷ rule 13 0x21 (exactly 0) "Ethernet Controller (802.11b)"
    ∷ rule 13 0x80 (exactly 0) "Other Wireless Controller"
    ∷ []

abbrev pub class_14 : List Rule
class_14 = rule 14 0x0 (exactly 0) "I20 Architecture" ∷ rule 14 0x0 positive "Message FIFO" ∷ []

abbrev pub class_15 : List Rule
class_15 =
    rule 15 0x1 (exactly 0) "TV Controller"
    ∷ rule 15 0x2 (exactly 0) "Audio Controller"
    ∷ rule 15 0x3 (exactly 0) "Voice Controller"
    ∷ rule 15 0x4 (exactly 0) "Data Controller"
    ∷ []

abbrev pub class_16 : List Rule
class_16 =
    rule 16 0x0 (exactly 0) "Network and Computing Encryption/Decryption"
    ∷ rule 16 0x10 (exactly 0) "Entertainment Encryption/Decryption"
    ∷ rule 16 0x80 (exactly 0) "Other Encryption/Decryption"
    ∷ []

abbrev pub class_17 : List Rule
class_17 =
    rule 17 0x0 (exactly 0) "DPIO Modules"
    ∷ rule 17 0x1 (exactly 0) "Performance Counters"
    ∷ rule 17 0x10 (exactly 0)
        "Communications Synchronization Plus Time and Frequency Test/Measurement"
    ∷ rule 17 0x20 (exactly 0) "Management Card"
    ∷ rule 17 0x80 (exactly 0) "Other Data Acquisition/Signal Processing Controller"
    ∷ []

-- The rules in the order of the code.
abbrev pub rules : List Rule
rules =
    class_0 ++ class_1 ++ class_2 ++ class_3 ++ class_4 ++ class_5 ++ class_6 ++ class_7 ++ class_8
    ++ class_9 ++ class_10 ++ class_11 ++ class_12 ++ class_13 ++ class_14 ++ class_15 ++ class_16
    ++ class_17

unfoldable pub interface_holds : Interface → ℕ → Bool
interface_holds (exactly q) p = p == q
interface_holds any p = true
interface_holds positive p = ltb 0 p

unfoldable pub applies : Rule → ℕ → ℕ → ℕ → Bool
unfolding interface_holds
applies r c sc p = c == r.class && sc == r.subclass && interface_holds r.interface p

-- The chain of tests for one triple.
unfoldable pub named_by : List Rule → ℕ → ℕ → ℕ → String
unfolding applies
named_by [] c sc p = "not specified"
named_by (r ∷ rs) c sc p =
    let rest = named_by rs c sc p in if applies r c sc p then r.text else rest

-- The index of a triple in `descriptions`.
abbrev pub index : ℕ → ℕ → ℕ → ℕ
index c sc p = c * 128 * 128 + sc * 128 + p

-- An assignment to an element of `descriptions`; an element that was never assigned is `none`.
unfoldable pub assign : (ℕ → Option String) → ℕ → String → ℕ → Option String
assign d i v j = if j == i then some v else d j

-- The three loops, from an outer one to an inner one, up to `n`.
unfoldable pub loop_p : ℕ → ℕ → ℕ → (ℕ → Option String) → ℕ → Option String
loop_p c sc zero d = d
loop_p c sc (suc n) d = assign (loop_p c sc n d) (index c sc n) (named_by rules c sc n)

unfoldable pub loop_sc : ℕ → ℕ → (ℕ → Option String) → ℕ → Option String
loop_sc c zero d = d
loop_sc c (suc n) d = loop_p c n 128 (loop_sc c n d)

unfoldable pub loop_cc : ℕ → (ℕ → Option String) → ℕ → Option String
loop_cc zero d = d
loop_cc (suc n) d = loop_sc n 128 (loop_cc n d)

-- `descriptions` after the loops of `load_pci_info`.
unfoldable pub descriptions : ℕ → Option String
descriptions = loop_cc 128 (λ i. none)

unfoldable pub repeat : ℕ → String → List String
repeat zero text = []
repeat (suc n) text = text ∷ repeat n text

-- `description`: the names of the classes; the elements behind them are NULL.
abbrev pub description_names : List String
description_names =
    "Device was built prior definition of the class code field"
    ∷ "Mass Storage Controller"
    ∷ "Network Controller"
    ∷ "Display Controller"
    ∷ "Multimedia Controller"
    ∷ "Memory Controller"
    ∷ "Bridge Device"
    ∷ "Simple Communication Controllers"
    ∷ "Base System Peripherals"
    ∷ "Input Devices"
    ∷ "Docking Stations"
    ∷ "Processors"
    ∷ "Serial Bus Controllers"
    ∷ "Wireless Controllers"
    ∷ "Intelligent I/O Controllers"
    ∷ "Satellite Communication Controllers"
    ∷ "Encryption/Decryption Controllers"
    ∷ "Data Acquisition and Signal Processing Controllers"
    ∷ (repeat 237 "reserved" ++ ("Device does not fit any defined class." ∷ []))

unfoldable pub description : ℕ → Option String
unfolding repeat
description class = get_elem? description_names class
