-- ===== src/Core.antt =====
-- src/core: the containers that the program uses in place of the standard library's.
pub mod Shift
pub mod Vector
pub mod Strings
pub mod Places
