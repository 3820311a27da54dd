-- ===== src/Progress/Width.antt =====
-- src/progress.rs: the progress line stays off the last column.
