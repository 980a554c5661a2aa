-- ===== src/Controller.antt =====
-- The controller of src/runtime/controller.py: one tick reads each watched repository and decides
-- which range of commits is reviewed next.
pub mod Config
pub mod Target
pub mod Site
pub mod Repo
pub mod Steps
pub mod Tick
