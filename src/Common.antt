-- ===== src/Common.antt =====
-- The messages between the programs, package common of common/.
pub mod Netio
