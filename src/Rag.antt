-- ===== src/Rag.antt =====
-- internal/rag: the vectors of note pages, for retrieval. Ranking and the network are not modelled.
pub mod Blob
pub mod Chunk
pub mod Vectors
pub mod Embed
pub mod Tests
