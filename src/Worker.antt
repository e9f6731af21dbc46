-- ===== src/Worker.antt =====
-- service/internal/filing/worker.go.
pub mod Backoff
pub mod Process
