-- ===== src/Embedding.antt =====
-- src/embedding/: the queue in front of the embedding model.
pub mod Dispatcher
