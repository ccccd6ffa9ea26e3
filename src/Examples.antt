-- ===== src/Examples.antt =====
-- Concrete files, a concrete checksum, and the theorems at concrete inputs.
pub mod Memory
pub mod Runs
pub mod LogRuns
pub mod KeyRuns
pub mod StoreRuns
pub mod ListRuns
pub mod CacheRuns
pub mod FileRuns
