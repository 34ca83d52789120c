-- ===== src/Store.antt =====
-- internal/store: the repositories that the services use, and what implements them.
pub mod Repository
pub mod Settlement
pub mod Memory
pub mod Rows
pub mod Database
pub mod Metadata
pub mod MySql
pub mod Redis
pub mod Opening
pub mod Transactions
