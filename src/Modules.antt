-- ===== src/Modules.antt =====
-- The modules of the active backend: src/modules.
pub mod Versioning
pub mod Manager
pub mod Transfer
pub mod Chksum
pub mod Watchdog
pub mod Aggregator
pub mod Erasure
mod Tests
