-- ===== src/IsoDep.antt =====
-- dfc_emulator_listener.c, in the build without the SDK's type_4_tag protocol, where this file does
-- the ISO-DEP framing itself.
pub mod State
pub mod Send
pub mod Apdu
pub mod Receive
pub mod Framed
pub mod Invariant
pub mod Respond
pub mod Answering
pub mod Handling
pub mod Control
pub mod Bounds
pub mod Session
pub mod Frames
pub mod Ack
pub mod Delivery
pub mod Routing
pub mod Replay
pub mod Links
pub mod Chain
pub mod Nak
pub mod Lost
pub mod Lossy
pub mod Pcd
pub mod Tests
