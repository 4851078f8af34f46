-- ===== src/Agent/Merkle.antt =====
-- The Merkle tree over the leaf hashes: `_reduce_to_root` and the loop of `get_ima_proof`
-- (agent/ima_reader.py), over any type of node and any function that hashes two nodes.
pub mod Layers
pub mod Rounds
pub mod Roots
pub mod Inclusion
pub mod Binding
