-- ===== src/Clib.antt =====
-- What the programs use of C and of its standard library: undefined behaviour, error codes,
-- NUL-terminated strings in buffers, and the reading and printing of numbers.
pub mod Run
pub mod Text
pub mod Memory
pub mod Words
pub mod Tokens
pub mod Number
