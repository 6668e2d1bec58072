-- ===== src/Ddm.antt =====
-- The device driver manager (src/ddm).
pub mod Pci
pub mod Drivers
