-- ===== src/Service.antt =====
-- src/sysvrun/service.h and the tables of names in service.c: the settings of a service.
pub mod Types
pub mod Settings
pub mod Convert
pub mod Search
pub mod Control
mod Tests
pub mod Settled
