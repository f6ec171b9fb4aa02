-- ===== src/Sender.antt =====
-- src/rtc/rtp_rtcp/rtp/sender: what the sender of a stream keeps.
pub mod Sequencer
pub mod Packetizer
