-- ===== src/Fs.antt =====
-- fs/ and include/file_t.h: the file system, a disk of 512-byte blocks.
pub mod Types
pub mod Names
pub mod Lookup
pub mod Create
pub mod Attributes
pub mod Content
pub mod Remove
pub mod Errors
