-- ===== src/MobileWeb.antt =====
-- apps/mobile-web: how the phone turns touches and keys into control frames.
pub mod Keyboard
pub mod InputSender
pub mod Gesture
pub mod Receiver
pub mod TouchBridge
pub mod KeyboardBridge
pub mod Pairing
