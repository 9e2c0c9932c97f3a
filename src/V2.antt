-- ===== src/V2.antt =====
-- ml/v2: the second pipeline, from replica metrics to trigger configurations.
pub mod Config
pub mod Data
pub mod Naming
pub mod Postprocessor
pub mod Model
pub mod Preprocessor
pub mod Fetcher
pub mod Synthetic
pub mod Pipeline
pub mod ApiHandler
pub mod Cli
