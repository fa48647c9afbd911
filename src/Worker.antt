-- ===== src/Worker.antt =====
-- The two ends of a worker pipe: python/foxreq/_worker_session.py in the parent and
-- python/foxreq/_profile_worker.py in the child.
pub mod Request
pub mod Response
pub mod Failure
pub mod Process
pub mod Child
pub mod Parent
