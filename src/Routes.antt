-- ===== src/Routes.antt =====
-- The handlers of the HTTP interface. Source: crates/server/src/routes.
pub mod Files
pub mod Dedup
pub mod Shard
pub mod Xorb
pub mod Log
use openxet.Base.{}
