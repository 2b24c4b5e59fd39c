-- ===== src/Tests.antt =====
-- Runs of the model on small volumes, and the theorems at them.
pub mod Disk
mod Table
mod Text
mod Root
mod Formatting
mod Content
mod Routes
pub mod Files
pub mod Store
mod Sessions
mod Hosts
mod Pair
mod Tree
