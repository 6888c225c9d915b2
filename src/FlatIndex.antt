-- ===== src/FlatIndex.antt =====
-- internal/adapter/flatindex: the vector index as two flat files that are scanned as a whole.
pub mod Codes
pub mod Differing
pub mod Hamming
pub mod Scan
pub mod TopOf
pub mod Scanning
pub mod Slices
pub mod Slots
pub mod Parts
pub mod Nearest
pub mod Workers
pub mod Files
pub mod Crash
pub mod Appended
mod Examples
