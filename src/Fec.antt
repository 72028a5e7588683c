-- ===== src/Fec.antt =====
-- src/core/rs_block_erasure.hpp and rs_block_erasure.cpp: the block erasure code of the air link.
pub mod Ring
pub mod Header
pub mod Map
pub mod Codec
pub mod Decode
pub mod Sender
pub mod Receiver
pub mod Systematic
pub mod Pending
pub mod Complete
pub mod Examples
