-- ===== src/Storage.antt =====
-- src/infra/storage: the records on disk and what reads and writes them.
pub mod Record
pub mod Manager
pub mod Repository
pub mod Engine
pub mod Tests
