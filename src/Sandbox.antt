-- ===== src/Sandbox.antt =====
-- nitrobox/sandbox.py: the parts of `Sandbox` that are its own bookkeeping.
pub mod Snapshots
pub mod Environment
mod Tests
