-- ===== src/Artifacts.antt =====
-- services/artifact_gateway: static sites and build evidence in an object store.
pub mod Store
pub mod Paths
pub mod Media
pub mod Keys
pub mod Archives
pub mod Gateway
pub mod Retention
pub mod History
pub mod Memory
pub mod Codec
pub mod Runs
