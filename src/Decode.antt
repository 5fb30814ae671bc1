-- ===== src/Decode.antt =====
-- src/pool/decode.rs: the decoders of allocator metadata, one child for each structure.
pub mod Bytes
pub mod Vs
pub mod Descriptor
pub mod Lfh
pub mod Header
pub mod Pointers
pub mod Tags
