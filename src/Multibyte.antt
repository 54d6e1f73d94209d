-- ===== src/Multibyte.antt =====
-- vxodbc/multibyte.cc
pub mod Charset
pub mod Names
pub mod Stat
pub mod Scan
pub mod Chars
pub mod Run
pub mod Laws
pub mod ClientEncoding
