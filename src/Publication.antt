-- ===== src/Publication.antt =====
-- internal/publication: publications, their packets and their assembly from chunks.
pub mod Packet
pub mod Manifest
pub mod Signing
pub mod Chunk
pub mod Receipt
pub mod Assembly
pub mod Store
pub mod Catalog
