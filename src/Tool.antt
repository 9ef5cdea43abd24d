-- ===== src/Tool.antt =====
-- The programs below tool/ that prepare an executable on the host.
pub mod Elf
pub mod AuxData
