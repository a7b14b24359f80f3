-- ===== src/Cartridge.antt =====
-- src/core/cartridge.rs: the archive, which composes the header, the allocator, the catalog, the
-- pages, the policy engine, the audit log and encryption.
pub mod Content
pub mod State
pub mod Capacity
pub mod Ownership
pub mod Consistency
pub mod Created
pub mod RoundTrip
pub mod StalePolicy
pub mod Files
mod Tests
