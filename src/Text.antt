-- ===== src/Text.antt =====
-- src/mea_string_utils.c: the string helpers. A C string is the list of its bytes before the NUL;
-- a function that fills a buffer returns what it leaves there.
pub mod Char
pub mod Escape
pub mod Unescape
pub mod Trim
pub mod Split
pub mod Compare
mod Tests
mod Examples
