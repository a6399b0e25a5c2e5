-- ===== src/Reconstruction.antt =====
-- The reconstruction plan of a file: its terms, cut to a byte range, and the chunk ranges to fetch.
-- Sources: crates/cas_types/src/reconstruction.rs, crates/server/src/routes/reconstruction.rs.
pub mod Types
pub mod Range
pub mod Offsets
pub mod Trim
pub mod Lookup
pub mod Merge
pub mod Fetch
mod Tests
use openxet.Base.{}
