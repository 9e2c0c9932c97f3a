-- ===== src/V1.antt =====
-- The first version of the generator, in ml.
pub mod Config
pub mod Naming
pub mod Generator
pub mod Analyzer
pub mod Prometheus
pub mod Cli
