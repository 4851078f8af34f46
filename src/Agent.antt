-- ===== src/Agent.antt =====
-- The measurement agent of the attested machine (agent/).
pub mod Merkle
pub mod Log
pub mod Tree
pub mod Pcr
pub mod Report
