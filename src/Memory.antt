-- ===== src/Memory.antt =====
-- src/dnc/memory: the stores of records with their retrieval, and the versions of skills.
pub mod Stores
pub mod Skills
