-- ===== src/Runtime.antt =====
-- python/foxreq/_runtime_manifest.py: the lock of a Firefox runtime, and the check of an installed one.
pub mod Names
pub mod Manifest
pub mod Installed
pub mod Locked
