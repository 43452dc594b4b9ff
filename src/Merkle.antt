-- ===== src/Merkle.antt =====
-- internal/merkle: the usage tree (`Tree`) and the leaves of billed requests (`Leaf`).
pub mod Tree
pub mod Leaf
