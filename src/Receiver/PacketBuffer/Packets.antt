-- ===== src/Receiver/PacketBuffer/Packets.antt =====
-- src/rtc/rtp_rtcp/rtp/receiver/video/jitter/packet_buffer.hpp: the packets and frames of the buffer, and its slots.
-- With the headers of src/rtc/rtp_rtcp/rtp_video_header.hpp and of H264. A payload is the list of its bytes.
use naivertc.Base.{
  ℕ, ◌+◌, ◌-◌, ◌%◌, ◌^◌, ltb, if◌then◌else◌, Bool, true, false, Option, none, List, [], length,
  get_or,
}
use naivertc.Base.Int.{ℤ, negsuc}

pub data FrameType : Type 0 where
  empty : FrameType
  key : FrameType
  delta : FrameType

pub data CodecType : Type 0 where
  generic : CodecType
  h264 : CodecType
  vp8 : CodecType
  vp9 : CodecType
  av1 : CodecType
  multiplex : CodecType

pub record RtpVideoHeader : Type 0 where
  pub frame_width : ℕ
  pub frame_height : ℕ
  pub frame_type : FrameType
  pub codec_type : CodecType
  pub is_first_packet_in_frame : Bool
  pub is_last_packet_in_frame : Bool

-- Of the NAL units of a packet their number is kept.
pub record PacketizationInfo : Type 0 where
  pub num_nalus : ℕ
  pub has_sps : Bool
  pub has_pps : Bool
  pub has_idr : Bool

pub data RtpVideoCodecHeader : Type 0 where
  monostate : RtpVideoCodecHeader
  h264_header : PacketizationInfo → RtpVideoCodecHeader

pub record Packet : Type 0 where
  pub video_header : RtpVideoHeader
  pub video_codec_header : RtpVideoCodecHeader
  pub video_payload : List ℕ
  pub continuous : Bool
  pub seq_num : ℕ
  pub timestamp : ℕ
  pub received_time_ms : ℤ
  pub times_nacked : ℤ

abbrev pub is_first : Packet → Bool
is_first p = p.video_header.is_first_packet_in_frame

abbrev pub is_last : Packet → Bool
is_last p = p.video_header.is_last_packet_in_frame

unfoldable pub is_h264 : Packet → Bool
is_h264 p = elim (p.video_header.codec_type) [ h264 ↦ true | _ ↦ false ]

pub record Frame : Type 0 where
  pub frame_width : ℕ
  pub frame_height : ℕ
  pub frame_type : FrameType
  pub codec_type : CodecType
  pub seq_num_start : ℕ
  pub seq_num_end : ℕ
  pub timestamp : ℕ
  pub times_nacked : ℤ
  pub min_received_time_ms : ℤ
  pub max_received_time_ms : ℤ
  pub num_packets : ℕ
  pub bitstream : List ℕ

-- The four fields that a new frame leaves open are 0, `empty` and `generic` here.
abbrev pub new_frame : ℕ → Frame
new_frame num_packets = record {
  frame_width = 0;
  frame_height = 0;
  frame_type = empty;
  codec_type = generic;
  seq_num_start = 0;
  seq_num_end = 0;
  timestamp = 0;
  times_nacked = negsuc 0;
  min_received_time_ms = negsuc 0;
  max_received_time_ms = negsuc 0;
  num_packets = num_packets;
  bitstream = [];
}

-- A slot holds a packet or a null pointer.
abbrev pub Slots : Type 0
Slots = List (Option Packet)

unfoldable pub slot : Slots → ℕ → Option Packet
slot slots i = get_or slots i none

abbrev pub next_num : ℕ → ℕ
next_num x = (x + 1) % 2 ^ 16

abbrev pub prev_num : ℕ → ℕ
prev_num x = (x + 2 ^ 16 - 1) % 2 ^ 16

-- `index > 0 ? index - 1 : packet_buffer_.size() - 1`
abbrev pub prev_index : Slots → ℕ → ℕ
prev_index slots i = if ltb 0 i then i - 1 else length slots - 1
