-- ===== src/Robomas.antt =====
-- pkg/robomas/src/c: the drivers of the motors behind the gateways.
pub mod Frames
pub mod M3508
