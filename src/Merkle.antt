-- ===== src/Merkle.antt =====
-- Merkle trees (dsm/src/merkle): the sparse tree of sparse_merkle_tree.rs, and the plain tree of
-- tree.rs. A hash is the list of its bytes, and BLAKE3 is a parameter.
pub mod Hash
pub mod Sparse
pub mod Plain
