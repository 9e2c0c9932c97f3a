-- ===== src/Tests.antt =====
-- Tests and examples: each theorem on concrete data, over the floats of Tests.Sample.
mod Sample
mod Postprocessor
mod Preprocessor
mod Model
mod Fetcher
mod Pipeline
mod ApiHandler
mod Generator
mod Analyzer
mod Synthetic
mod Prometheus
mod Detect
mod Cli
mod Scheduler
mod Controller
