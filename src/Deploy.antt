-- ===== src/Deploy.antt =====
-- The web application's deployments: their states and jobs, the subdomains and routes that lead to
-- them, and the variables that they run with.
pub mod Model
pub mod Aliases
pub mod Rollback
pub mod Status
pub mod Jobs
pub mod Variables
pub mod Environments
pub mod Routes
pub mod Runs
