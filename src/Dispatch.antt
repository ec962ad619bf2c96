-- ===== src/Dispatch.antt =====
-- lumenrl/controller/dispatch.py.
pub mod Modes
pub mod Collect
pub mod Laws
pub mod Ranks
