-- ===== src/Server/Panics.antt =====
-- The methods of internal/fetch that return without a run-time panic.
pub mod Checks
pub mod Requests
pub mod Html
pub mod Extraction
pub mod Reads
