-- ===== src/Shell.antt =====
-- `_PersistentShell` of _shell.py: a shell that stays alive, its descriptors, and how the output of a
-- command is read.
pub mod Output
pub mod Process
