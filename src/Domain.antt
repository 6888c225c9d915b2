-- ===== src/Domain.antt =====
-- internal/domain: the values that the components share.
pub mod Texts
pub mod Source
pub mod Hash
pub mod Vectors
pub mod Named
pub mod Bot
pub mod Trimmed
pub mod Distances
pub mod Encoding
pub mod Validated
mod Examples
