-- ===== src/App.antt =====
-- The application: its scenes, and the life of its objects.
pub mod State
pub mod Text
pub mod Core
pub mod Device
pub mod Probe
pub mod Menus
pub mod Saving
pub mod Cards
pub mod Reports
pub mod AboutScene
pub mod Scenes
pub mod Rest
pub mod Visits
pub mod Asked
pub mod Flag
pub mod Blank
pub mod Selected
pub mod Settled
mod Tests
pub mod Shown
pub mod Named
pub mod Keeps
pub mod Reading
pub mod Life
pub mod Releases
