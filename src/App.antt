-- ===== src/App.antt =====
-- app/utils: rules of the web application that its routers apply.
pub mod Branches
pub mod Groups
pub mod Redirects
pub mod Pages
mod Runs
