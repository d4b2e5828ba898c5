-- ===== src/Process.antt =====
-- kernel/fork.cpp: the processes and the choice of the next one.
pub mod Switch
pub mod Turns
pub mod Kept
pub mod Spawn
pub mod Fork
pub mod Stack
pub mod Tick
