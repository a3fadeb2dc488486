-- ===== src/BasicWindowManager.antt =====
-- miral/basic_window_manager.cpp: the window manager between Mir's shell and a policy.
pub mod Surfaces
pub mod Input
pub mod State
pub mod Events
pub mod Displays
pub mod StateChange
pub mod Workspaces
pub mod Movement
pub mod Activation
pub mod Raise
pub mod Refocus
pub mod Cycling
pub mod Hotplug
pub mod Removal
pub mod Validation
pub mod Forest
pub mod Family
pub mod Records
pub mod Kin
pub mod Transition
pub mod Insertion
pub mod Joining
pub mod Modification
pub mod Focus
