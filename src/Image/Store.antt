-- ===== src/Image/Store.antt =====
-- Image metadata (image/store.py): the configuration of an image, the sources it comes from, and the
-- manifests on disk.
pub mod Metadata
pub mod Manifests
pub mod Cascade
mod Tests
