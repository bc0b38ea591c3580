-- ===== src/Tests.antt =====
-- Runs of the model at concrete inputs, and each theorem at one of them.
pub mod Resets
pub mod Traces
pub mod Releases
pub mod Runs
pub mod Investigations
pub mod Repairs
pub mod Custody
pub mod Incidents
pub mod Catalog
pub mod Plans
pub mod Recoveries
pub mod Pipelines
pub mod Impacts
pub mod Domains
pub mod Signals
pub mod Patches
