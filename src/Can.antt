-- ===== src/Can.antt =====
-- pkg/can_smbus/src/core: the CAN bus over UDP gateways.
pub mod Types
pub mod Callbacks
pub mod Rx
pub mod Tx
pub mod Io
pub mod Data
pub mod Acks
pub mod Share
pub mod Signal
pub mod System
pub mod Arp
