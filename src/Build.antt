-- ===== src/Build.antt =====
-- The build controller, services/build_controller/build_controller.
pub mod Contracts
pub mod Store
pub mod World
pub mod Commands
pub mod Reconciler
mod Samples
mod Witnesses
mod Runs
