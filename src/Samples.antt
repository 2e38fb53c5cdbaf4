-- ===== src/Samples.antt =====
-- Concrete stand-ins for the crates that the program calls, and states to try the theorems on.
pub mod Encoding
pub mod Environment
pub mod Lines
pub mod Messages
pub mod Trees
pub mod Worlds
