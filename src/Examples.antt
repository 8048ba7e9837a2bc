-- ===== src/Examples.antt =====
-- Examples: the theorems at concrete inputs.
mod Frames
mod Service
mod Records
mod Channels
mod Laptop
mod Pairing
mod Handshake
mod Wire
mod Phone
mod Link
mod Codecs
mod Meeting
mod Requests
