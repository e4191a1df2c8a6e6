-- ===== src/Image.antt =====
-- nitrobox/image: image references, the registry client and the image metadata.
pub mod Reference
pub mod Request
pub mod Download
pub mod Layers
pub mod Platform
pub mod Tokens
pub mod Store
