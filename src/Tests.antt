-- ===== src/Tests.antt =====
-- Concrete runs of the modelled code, and the theorems at concrete inputs.
mod Wire
mod Evidence
mod Pipes
mod Compared
mod Calls
mod Headers
mod Runtimes
mod Sessions
mod Workers
