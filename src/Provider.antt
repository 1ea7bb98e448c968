-- ===== src/Provider.antt =====
-- apps/local_provider/local_provider: the provider that runs deployments on local Docker.
pub mod State
pub mod Receipts
pub mod Routes
pub mod Logs
pub mod Local
pub mod Checks
pub mod Processor
mod Runs
