-- ===== src/Procwatch.antt =====
-- The table of processes that the monitor watches: src/common/procwatch.c.
pub mod Store
pub mod Lists
pub mod Operations
pub mod Events
pub mod Shape
pub mod Links
pub mod Drop
pub mod Descendants
pub mod Exits
pub mod Inserts
pub mod Ingest
pub mod Drain
pub mod Sessions
pub mod Tests
