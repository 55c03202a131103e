-- ===== src/Text.antt =====
-- The text routines of src/src/ctype.c, src/src/string.c and src/src/stdlib.c.
pub mod Ctype
pub mod Memory
pub mod Digits
pub mod Strtoul
mod Tests
