-- ===== src/Driver.antt =====
-- The drivers below driver/.
pub mod Prci
pub mod ClintTimer
pub mod Uart
