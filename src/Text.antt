-- ===== src/Text.antt =====
-- lib/string.cpp and lib/printf.cpp: texts in arrays of characters that end in a zero.
pub mod Itoa
pub mod Compare
pub mod Print
