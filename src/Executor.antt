-- ===== src/Executor.antt =====
-- cpcrud/executor.py, `Executor._stream_single_pass`: a plan's actions are run in a write session for each domain.
-- A server answers by the requests that it has had, other clients included, so that every fault can
-- come at every request. The events, the texts of errors, the overlay of a session and the registry
-- of staged sessions are left out.
pub mod Plan
pub mod Wire
pub mod Session
pub mod Publish
pub mod Passes
pub mod Closed
pub mod Guarded
pub mod Reported
pub mod Examples
