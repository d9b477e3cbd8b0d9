-- ===== src/LoadTest.antt =====
-- The load test of cmd/loadtest: producers and consumers on one queue, and the verdict of a run.
pub mod Store
pub mod Keys
pub mod Workload
pub mod World
pub mod Conservation
pub mod Reached
pub mod Drain
pub mod Metrics
pub mod Settings
pub mod Results
pub mod Main
