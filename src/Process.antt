-- ===== src/Process.antt =====
-- src/piki/worker/main.py: the process that runs the conversation worker.
pub mod Loop
pub mod Stops
