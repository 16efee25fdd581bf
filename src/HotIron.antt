-- ===== src/HotIron.antt =====
-- The HotStuff protocol with one decision at a time: src/hot_iron.
pub mod Messages
pub mod Queue
pub mod Log
pub mod Decision
pub mod Signals
pub mod Protocol
pub mod Proof
pub mod Entry
