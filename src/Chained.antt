-- ===== src/Chained.antt =====
-- src/chained: the chained protocol, in which each view's proposal carries the certificate of an
-- earlier one, so that one vote serves a phase of each of the four decisions in the pipeline.
pub mod Messages
pub mod Tree
pub mod Log
pub mod Queue
pub mod Decision
pub mod Protocol
pub mod Proof
pub mod Entry
