-- ===== src/Stl.antt =====
-- include/stl/bits: the containers and algorithms of the kernel's own standard library.
pub mod StaticVector
pub mod Str
pub mod Vector
pub mod Cells
pub mod SharedPtr
pub mod ReverseIterator
