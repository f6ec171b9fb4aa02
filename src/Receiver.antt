-- ===== src/Receiver.antt =====
-- src/rtc/rtp_rtcp/rtp/receiver: what the receiver of a stream keeps.
pub mod NackModule
pub mod DecodedFrames
pub mod PacketBuffer
