-- ===== src/Net.antt =====
-- The network code of xinu/ipnet/common, one module for each of its parts.
pub mod Addr
pub mod Timer
pub mod Route
mod Tests
