-- ===== src/Receiver/PacketBuffer/Assembly.antt =====
-- src/rtc/rtp_rtcp/rtp/receiver/video/jitter/packet_buffer.cpp, IsContinuous and TryToAssembleFrames: whole frames are
-- taken out of the buffer. `bad` is a read through a null pointer, of a variant that is not there, or a failed assertion.
use naivertc.Base.{
  ℕ, zero, suc, ◌+◌, ◌%◌, ltb, leb, ◌==◌, if◌then◌else◌, Bool, true, false, not, ◌&&◌, ◌||◌, Option,
  none, some, ◌++◌, length, set,
}
use naivertc.Base.Int.{ℤ, pos, negsuc, pos_part, ltb_ℤ, min_ℤ, max_ℤ}
use naivertc.Receiver.PacketBuffer.Packets.{
  RtpVideoHeader, PacketizationInfo, RtpVideoCodecHeader, monostate, h264_header, Packet, Frame,
  key, delta, is_first, Slots, slot, next_num, prev_num, prev_index,
}

abbrev pub max_nalu_num_per_packet : ℕ
max_nalu_num_per_packet = 10

unfoldable pub continuous_with : Packet → Option Packet → Bool
continuous_with p none = false
continuous_with p (some q) =
    q.seq_num == prev_num p.seq_num && q.timestamp == p.timestamp && q.continuous

unfoldable pub continuous_at : Slots → ℕ → ℕ → Option Packet → Bool
continuous_at slots s i none = false
continuous_at slots s i (some p) =
    p.seq_num == s && (is_first p || continuous_with p (slot slots (prev_index slots i)))

unfoldable pub is_continuous : Slots → ℕ → Bool
is_continuous slots s = let i = s % length slots in continuous_at slots s i (slot slots i)

-- What the pass backwards has seen of a H264 frame.
pub record KeyframeScan : Type 0 where
  pub is_h264_keyframe : Bool
  pub has_h264_sps : Bool
  pub has_h264_pps : Bool
  pub has_h264_idr : Bool
  pub idr_width : ℤ
  pub idr_height : ℤ

abbrev pub new_scan : KeyframeScan
new_scan = record {
  is_h264_keyframe = false;
  has_h264_sps = false;
  has_h264_pps = false;
  has_h264_idr = false;
  idr_width = negsuc 0;
  idr_height = negsuc 0;
}

unfoldable pub scan_found : Bool → RtpVideoHeader → KeyframeScan → KeyframeScan
scan_found sps_pps_idr h scan =
    let is_key =
      (sps_pps_idr && scan.has_h264_sps && scan.has_h264_pps && scan.has_h264_idr)
      || (not sps_pps_idr && scan.has_h264_idr) in
    let has_size = ltb 0 h.frame_width && ltb 0 h.frame_height in
    if is_key
    then record scan {
      is_h264_keyframe = true;
      idr_width = if has_size then pos h.frame_width else scan.idr_width;
      idr_height = if has_size then pos h.frame_height else scan.idr_height;
    }
    else scan

unfoldable pub scan_packet : Bool → RtpVideoHeader → PacketizationInfo → KeyframeScan → KeyframeScan
scan_packet sps_pps_idr h info scan = scan_found sps_pps_idr h (record scan {
  has_h264_sps = scan.has_h264_sps || info.has_sps;
  has_h264_pps = scan.has_h264_pps || info.has_pps;
  has_h264_idr = scan.has_h264_idr || info.has_idr;
})

-- How the pass backwards ends: at the start of a frame of some size, or without one.
pub data Walked : Type 0 where
  whole : ℕ → ℕ → KeyframeScan → Walked
  too_many_nalus : Walked
  bad_walk : Walked

-- What is done with the current packet, where `go` is the way on.
unfoldable pub checked :
    Bool
    → Bool
    → Packet
    → RtpVideoCodecHeader
    → ℕ
    → ℕ
    → KeyframeScan
    → (KeyframeScan → Walked)
    → Walked
checked sps_pps_idr false p header start size scan go =
    if is_first p then whole start size scan else go scan
checked sps_pps_idr true p monostate start size scan go = bad_walk
checked sps_pps_idr true p (h264_header info) start size scan go =
    if leb max_nalu_num_per_packet info.num_nalus
    then too_many_nalus
    else go (scan_packet sps_pps_idr p.video_header info scan)

-- The `while (true)` loop; the first number is how many slots of the buffer are left to test.
unfoldable pub walk : Slots → Bool → Bool → ℕ → ℕ → ℕ → ℕ → ℕ → KeyframeScan → Packet → Walked
walk slots sps_pps_idr in_h264 timestamp zero i start size scan p =
    let size' = size + length p.video_payload in
    checked sps_pps_idr in_h264 p p.video_codec_header start size' scan
      (λ scan'. whole start size' scan')
walk slots sps_pps_idr in_h264 timestamp (suc left) i start size scan p =
    let size' = size + length p.video_payload in
    let i' = prev_index slots i in
    checked sps_pps_idr in_h264 p p.video_codec_header start size' scan (λ scan'.
      elim (slot slots i') [
        | none ↦ if in_h264 then whole start size' scan' else bad_walk
        | some q ↦
            if in_h264 && not (q.timestamp == timestamp)
            then whole start size' scan'
            else walk slots sps_pps_idr in_h264 timestamp left i' (prev_num start) size' scan' q
      ])

-- The first packet of a H264 frame tells its type.
unfoldable pub set_frame_type : KeyframeScan → Packet → Packet
set_frame_type scan p =
    let h = p.video_header in
    let has_size = ltb_ℤ (pos 0) scan.idr_width && ltb_ℤ (pos 0) scan.idr_height in
    if scan.is_h264_keyframe
    then record p {
      video_header = record h {
        frame_type = key;
        frame_width = if has_size then pos_part scan.idr_width else h.frame_width;
        frame_height = if has_size then pos_part scan.idr_height else h.frame_height;
      };
    }
    else record p { video_header = record h { frame_type = delta } }

unfoldable pub begin_frame : Packet → Frame → Frame
begin_frame p f = record f {
  frame_width = p.video_header.frame_width;
  frame_height = p.video_header.frame_height;
  codec_type = p.video_header.codec_type;
  frame_type = p.video_header.frame_type;
  seq_num_start = p.seq_num;
  timestamp = p.timestamp;
  times_nacked = p.times_nacked;
  min_received_time_ms = p.received_time_ms;
  max_received_time_ms = p.received_time_ms;
}

unfoldable pub end_frame : Packet → Frame → Frame
end_frame p f = record f { seq_num_end = p.seq_num }

unfoldable pub append_packet : Packet → Frame → Frame
append_packet p f = record f {
  times_nacked = max_ℤ f.times_nacked f.times_nacked;
  min_received_time_ms = min_ℤ f.min_received_time_ms p.received_time_ms;
  max_received_time_ms = max_ℤ f.max_received_time_ms p.received_time_ms;
  bitstream = f.bitstream ++ p.video_payload;
}

unfoldable pub take_packet : ℕ → ℕ → ℕ → Packet → Frame → Frame
take_packet start s i p f =
    let begun = if i == start then begin_frame p f else f in
    append_packet p (if i == s then end_frame p begun else begun)

-- The loop that moves `count` packets from number `i` on into the frame from `start` to `s`.
unfoldable pub take_packets : ℕ → ℕ → ℕ → ℕ → Slots → Frame → Option (Slots × Frame)
take_packets start s zero i slots f = some (slots, f)
take_packets start s (suc count) i slots f =
    let index = i % length slots in
    elim (slot slots index) [
      | none ↦ none
      | some p ↦
          let rest =
            take_packets start s count (next_num i) (set slots index none)
              (take_packet start s i p f) in
          if p.seq_num == i then rest else none
    ]
