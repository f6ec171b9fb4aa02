-- ===== src/Rtcp.antt =====
-- src/rtc/rtp_rtcp/rtcp: RTCP packets, their wire format and their fragmentation.
pub mod Packet
pub mod Header
pub mod Feedback
pub mod Items
pub mod Mantissa
pub mod Nack
pub mod Pli
pub mod Fir
pub mod Remb
pub mod LastChunk
pub mod Safety
pub mod Tmmb
pub mod LossNotification
pub mod ReportBlock
pub mod Report
