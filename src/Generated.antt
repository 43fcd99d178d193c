-- ===== src/Generated.antt =====
-- The code that micropb-gen makes for a message: its presence bits, its fields and oneofs, and the
-- two traits.
pub mod Hazzer
pub mod Types
pub mod Parts
pub mod Field
pub mod Message
pub mod Oneof
pub mod Agree
pub mod Ends
