-- ===== src/Rtp/Delivery.antt =====
-- From the packer to the depacketizer over a link that neither loses nor reorders.
pub mod Feed
pub mod Carried
pub mod Nal
pub mod AccessUnit
pub mod Pack
