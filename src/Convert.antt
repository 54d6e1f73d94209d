-- ===== src/Convert.antt =====
-- The conversions of column data of vxodbc/convert.cc.
pub mod Bytea
pub mod Hex
pub mod Linefeeds
pub mod Literal
pub mod Money
pub mod Clause
pub mod Field
