-- ===== src/Examples.antt =====
-- Runs of the operations on small memories and disks.
mod Frames
mod Files
mod Screen
mod Symbols
mod Processes
mod Texts
mod Devices
mod Vectors
