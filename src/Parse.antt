-- ===== src/Parse.antt =====
-- vxodbc/parse.cc: the tokens of an SQL statement, and what parse_statement reads from them.
pub mod Token
pub mod State
pub mod Level
pub mod Select
pub mod From
pub mod Loop
pub mod Resolve
