-- ===== src/Rtp.antt =====
-- src/core/rtp_h264.hpp and rtp_h264.cpp: H.264 access units to RTP datagrams and back.
pub mod Annexb
pub mod Packer
pub mod Depacketizer
pub mod Datagram
pub mod InOrder
pub mod Delivery
pub mod Overrun
pub mod Safety
pub mod Bounds
pub mod Pay
pub mod Depay
pub mod Examples
