-- ===== src/Process.antt =====
-- lib/process_comm: what a process knows of the services that the others announce.
pub mod Table
