-- ===== src/Iam.antt =====
-- src/core/iam: access control by policies. `Policy` and `Pattern` are policy.rs and pattern.rs,
-- `Engine` is engine.rs over the cache of cache.rs.
pub mod Pattern
pub mod Policy
pub mod Condition
pub mod Engine
pub mod Tests
