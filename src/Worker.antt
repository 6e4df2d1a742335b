-- ===== src/Worker.antt =====
-- apps/worker_parser/src: the retries of a page and the sessions that they use.
pub mod Retry
pub mod Execution
pub mod HotSession
pub mod Pages
