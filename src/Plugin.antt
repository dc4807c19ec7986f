-- ===== src/Plugin.antt =====
-- The plugin of internal/plugin: what it makes of the requests of the host.
pub mod Types
pub mod Values
pub mod Millis
pub mod Handlers
pub mod Ledger
pub mod Session
pub mod Detail
pub mod Management
pub mod Service
pub mod Inventory
pub mod PriceSync
pub mod Update
