-- ===== src/Entry.antt =====
-- entry.c: paths, the entries of a directory, and the walk through its clusters.
pub mod Paths
pub mod Dirent
pub mod Walk
pub mod LongName
pub mod Made
pub mod Directory
