-- ===== src/Examples.antt =====
-- Concrete discussions, ledgers and event buses, at which the theorems are applied.
pub mod People
pub mod Discussions
pub mod Policies
pub mod Services
pub mod Chains
pub mod Accounts
pub mod Hosts
pub mod Registries
pub mod Gateways
