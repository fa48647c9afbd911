-- ===== src/Api.antt =====
-- The package's API in front of the workers: python/foxreq/_profiles.py, _normalize.py and _api.py.
pub mod Profiles
pub mod Arguments
pub mod Pem
pub mod Bundle
pub mod Requests
pub mod Sendable
pub mod Response
pub mod Policy
pub mod Session
pub mod Verified
pub mod Grows
pub mod Lifecycle
pub mod Settings
pub mod Added
pub mod Delivered
