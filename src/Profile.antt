-- ===== src/Profile.antt =====
-- The resolved technical profile of a bike.
pub mod Tree
pub mod Projection
pub mod Claims
pub mod Gates
pub mod Application
pub mod Resolver
pub mod Derived
pub mod Recompute
pub mod Revision
pub mod Manual
pub mod Policies
