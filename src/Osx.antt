-- ===== src/Osx.antt =====
-- pslib_osx.c: the same interface on macOS. What it repeats word for word of pslib_linux.c goes by the
-- Linux port's definition.
pub mod Host
pub mod Partitions
pub mod Memory
pub mod Cpu
pub mod Process
pub mod Net
pub mod Disks
pub mod Users
