-- ===== src/Std.antt =====
-- lib/std_api: the containers that the other packages are built on.
pub mod Queue
pub mod Buffer
pub mod Time
