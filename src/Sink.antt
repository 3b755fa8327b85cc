-- ===== src/Sink.antt =====
-- compact_sink.go: the builder of compact trees, in which nodes are numbers.
pub mod Links
pub mod Sparse
pub mod Nodes
pub mod Build
pub mod Tree
