-- ===== src/Exec.antt =====
-- internal/exec/executor.go: which tasks run, and the slots that they hold.
pub mod Slots
pub mod Dispatch
