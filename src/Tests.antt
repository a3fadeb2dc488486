-- ===== src/Tests.antt =====
-- The theorems at concrete inputs.
pub mod Samples
pub mod Windows
pub mod Outputs
pub mod Placements
pub mod Infos
pub mod Managers
pub mod Removals
mod Modifications
mod Keymaps
mod Cycles
mod Hotplugs
mod Transitions
mod Arrivals
pub mod Desktop
