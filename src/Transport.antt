-- ===== src/Transport.antt =====
-- transport: the adapters to the RDP channels of the two ends.
pub mod ChannelHandle
pub mod Wts
pub mod Mstsc
