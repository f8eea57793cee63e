-- ===== src/Tests.antt =====
-- A concrete kernel, concrete images in memory, and the theorems at them.
pub mod Kernel
pub mod Store
pub mod Rounds
pub mod Images
mod Loads
mod Launches
mod Symbols
pub mod Switches
mod Mappings
mod Numbers
pub mod Runs
pub mod Remaps
mod Formats
mod Patches
mod Grants
mod Unmaps
