-- ===== src/Core.antt =====
-- Algorithms, formats, backends and their registry (crates/gpzip-core/src and the backends of
-- crates/gpzip-codec-cpu, crates/gpzip-codec-gpu and crates/gpzip-cli); the pieces of an input and the
-- members of a file; and the chunk function of the hybrid backend.
pub mod Algorithm
pub mod Registry
pub mod Backends
pub mod Serves
pub mod Suffix
pub mod Format
pub mod SafeJoin
pub mod Detect
pub mod Pieces
pub mod EncodeOne
pub mod Members
pub mod MembersFound
pub mod Permits
pub mod PermitsHeld
mod Tests
