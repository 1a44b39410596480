-- ===== src/Extern.antt =====
-- Crates and services that the repository calls and does not contain, as interfaces. Each is a
-- record of operations with the laws that its documentation states; the definitions that call it
-- take a value of the record.
pub mod Dashmap
pub mod Sha2
pub mod Byteorder
