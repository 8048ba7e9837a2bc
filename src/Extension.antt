-- ===== src/Extension.antt =====
-- apps/extension: the laptop's session state, pairing, input gate and teardown.
pub mod SessionState
pub mod Backoff
pub mod InputService
pub mod PairedDevices
pub mod PairingManager
pub mod Teardown
pub mod SignalingClient
