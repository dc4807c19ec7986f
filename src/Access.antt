-- ===== src/Access.antt =====
-- The package internal/access: the store of keys, groups, inventory, prices and usage, and the
-- routing that it decides.
pub mod Types
pub mod Calendar
pub mod Time
pub mod Db
pub mod Normalize
pub mod Limits
pub mod Quota
pub mod Bindings
pub mod Keys
pub mod Groups
pub mod Scope
pub mod Prices
pub mod Auth
pub mod Inventory
pub mod HostFiles
pub mod AuthFiles
pub mod Usage
pub mod Clean
pub mod Linked
pub mod Routing
