-- ===== src/Registry.antt =====
-- services/registry_auth/registry_auth: short-lived credentials of the image registry, and the
-- tokens that they are exchanged for.
pub mod Names
pub mod Credentials
pub mod Lifetime
pub mod Tokens
pub mod Scopes
mod Runs
