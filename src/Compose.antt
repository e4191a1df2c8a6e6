-- ===== src/Compose.antt =====
-- nitrobox/compose: the parsing of compose files and the life of a project.
pub mod Yaml
pub mod Service
pub mod Topo
pub mod Substitution
pub mod Merge
pub mod Health
pub mod Project
pub mod Ports
pub mod Environment
pub mod Network
