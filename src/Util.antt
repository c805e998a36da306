-- ===== src/Util.antt =====
-- The package util.
pub mod BigEndian
pub mod LittleEndian
pub mod Message
pub mod Floats
mod Tests
