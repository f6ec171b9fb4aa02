-- ===== src/Sender/Sequencer.antt =====
-- src/rtc/rtp_rtcp/rtp/sender/rtp_packet_sequencer.hpp and rtp_packet_sequencer.cpp: the sequence numbers of the packets
-- sent. A packet is what the sequencer reads and sets of it; `now_ms` is what the clock reads during a call, and `none`
-- is a failed assertion: a RED packet without a payload, or padding on the media SSRC where it may not be.
pub mod Step
pub mod Laws
use mathlib.Core.Option
use naivertc.Base.{
  ℕ, zero, suc, ◌+◌, ◌-◌, ◌*◌, ◌%◌, ◌^◌, ◌==◌, ltb, if◌then◌else◌, Bool, true, false, not, ◌&&◌,
  Option, none, some, List, [], ◌∷◌, length,
}
use naivertc.Base.Int.{ℤ, pos, negsuc, ◌+ℤ◌, ◌-ℤ◌, ◌*ℤ◌, ltb_ℤ, eqb_ℤ}
use naivertc.Unwrapper.{cast_to}

pub data RtpPacketType : Type 0 where
  audio : RtpPacketType
  video : RtpPacketType
  retransmission : RtpPacketType
  fec : RtpPacketType
  padding : RtpPacketType

pub record RtpPacketToSend : Type 0 where
  pub ssrc : ℕ
  pub packet_type : RtpPacketType
  pub sequence_number : ℕ
  pub timestamp : ℕ
  pub capture_time_ms : ℤ
  pub payload_type : ℕ
  pub marker : Bool
  pub is_red : Bool
  pub payload : List ℕ

abbrev pub timestamp_ticks_per_ms : ℤ
timestamp_ticks_per_ms = pos 90

abbrev pub invalid_payload_type : ℤ
invalid_payload_type = negsuc 0

pub record RtpPacketSequencer : Type 0 where
  pub media_ssrc : ℕ
  pub rtx_ssrc : Option ℕ
  pub require_marker_before_media_padding : Bool
  pub media_seq_num : ℕ
  pub rtx_seq_num : ℕ
  pub last_payload_type : ℤ
  pub last_rtp_timestamp : ℕ
  pub last_capture_time_ms : ℤ
  pub last_timestamp_time_ms : ℤ
  pub last_packet_marker_bit : Bool

abbrev pub is_padding : RtpPacketType → Bool
is_padding padding = true
is_padding audio = false
is_padding video = false
is_padding retransmission = false
is_padding fec = false

abbrev pub is_retransmission : RtpPacketType → Bool
is_retransmission retransmission = true
is_retransmission audio = false
is_retransmission video = false
is_retransmission fec = false
is_retransmission padding = false

abbrev pub is_ssrc : ℕ → Option ℕ → Bool
is_ssrc ssrc none = false
is_ssrc ssrc (some n) = ssrc == n

unfoldable pub can_send_padding_on_media_ssrc : RtpPacketSequencer → Bool
can_send_padding_on_media_ssrc s =
    if eqb_ℤ s.last_payload_type invalid_payload_type
    then false
    else if s.require_marker_before_media_padding && not s.last_packet_marker_bit
    then false
    else true

-- A byte as a signed number.
pub to_int8 : ℕ → ℤ
to_int8 n = if ltb (n % 256) 128 then pos (n % 256) else negsuc (255 - n % 256)

-- The payload type that padding takes over; of a RED packet it is the first byte of the payload.
unfoldable pub media_payload_type : RtpPacketToSend → Option ℕ
media_payload_type p = if p.is_red then first p.payload else some p.payload_type
  where
    first : List ℕ → Option ℕ
    first [] = none
    first (b ∷ bs) = some b

unfoldable pub update_last_packet_state :
    RtpPacketSequencer → ℤ → RtpPacketToSend → Option RtpPacketSequencer
unfolding media_payload_type to_int8
update_last_packet_state s now_ms p =
    Option.map
      (λ payload_type. record s {
        last_packet_marker_bit = p.marker;
        last_payload_type = to_int8 payload_type;
        last_rtp_timestamp = p.timestamp;
        last_timestamp_time_ms = now_ms;
        last_capture_time_ms = p.capture_time_ms;
      })
      (media_payload_type p)

-- Padding on the RTX stream without payload goes on from the last media packet, by the time since.
unfoldable pub populate_rtx_padding : RtpPacketSequencer → ℤ → RtpPacketToSend → RtpPacketToSend
populate_rtx_padding s now_ms p =
    let since = now_ms -ℤ s.last_timestamp_time_ms in
    let moved = pos s.last_rtp_timestamp +ℤ since *ℤ timestamp_ticks_per_ms in
    if ltb_ℤ (pos 0) s.last_timestamp_time_ms
    then record p {
      timestamp = cast_to 32 moved;
      capture_time_ms =
          (if ltb_ℤ (pos 0) s.last_capture_time_ms
            then s.last_capture_time_ms +ℤ now_ms -ℤ s.last_timestamp_time_ms
            else s.last_capture_time_ms);
    }
    else record p { timestamp = s.last_rtp_timestamp; capture_time_ms = s.last_capture_time_ms }

-- Padding on the media SSRC, which the last media packet must allow.
unfoldable pub populate_media_padding :
    RtpPacketSequencer → RtpPacketToSend → Option RtpPacketToSend
unfolding can_send_padding_on_media_ssrc
populate_media_padding s p =
    if can_send_padding_on_media_ssrc s
    then some (record p {
      timestamp = s.last_rtp_timestamp;
      capture_time_ms = s.last_capture_time_ms;
      payload_type = cast_to 8 s.last_payload_type;
    })
    else none

unfoldable pub populate_padding_fields :
    RtpPacketSequencer → ℤ → RtpPacketToSend → Option RtpPacketToSend
unfolding populate_rtx_padding populate_media_padding
populate_padding_fields s now_ms p =
    if p.ssrc == s.media_ssrc
    then populate_media_padding s p
    else if is_ssrc p.ssrc s.rtx_ssrc && not (ltb 0 (length p.payload))
    then some (populate_rtx_padding s now_ms p)
    else some p

-- The packet with what padding takes over, if it is padding.
unfoldable pub padded : RtpPacketSequencer → ℤ → RtpPacketToSend → Option RtpPacketToSend
unfolding populate_padding_fields
padded s now_ms p = if is_padding p.packet_type then populate_padding_fields s now_ms p else some p

unfoldable pub sequence_media :
    RtpPacketSequencer → ℤ → RtpPacketToSend → Option (RtpPacketSequencer × RtpPacketToSend × Bool)
sequence_media s now_ms p = Option.bind (padded s now_ms p) λ filled.
    let numbered = record filled { sequence_number = s.media_seq_num } in
    let s' = record s { media_seq_num = (s.media_seq_num + 1) % 2 ^ 16 } in
    if is_padding p.packet_type
    then some (s', numbered, true)
    else Option.map (λ updated. (updated, numbered, true))
        (update_last_packet_state s' now_ms numbered)

unfoldable pub sequence :
    RtpPacketSequencer → ℤ → RtpPacketToSend → Option (RtpPacketSequencer × RtpPacketToSend × Bool)
sequence s now_ms p =
    if p.ssrc == s.media_ssrc
    then (if is_retransmission p.packet_type then some (s, p, true) else sequence_media s now_ms p)
    else if is_ssrc p.ssrc s.rtx_ssrc
    then Option.map
        (λ filled. (
          record s { rtx_seq_num = (s.rtx_seq_num + 1) % 2 ^ 16 },
          record filled { sequence_number = s.rtx_seq_num },
          true,
        ))
        (padded s now_ms p)
    else some (s, p, false)

-- What is kept of a stream that is sent on.
pub record RtpState : Type 0 where
  pub sequence_num : ℕ
  pub start_timestamp : ℕ
  pub timestamp : ℕ
  pub capture_time_ms : ℤ
  pub last_timestamp_time_ms : ℤ
  pub ssrc_has_acked : Bool

pub set_rtp_state : RtpPacketSequencer → RtpState → RtpPacketSequencer
set_rtp_state s state = record s {
  media_seq_num = state.sequence_num;
  last_rtp_timestamp = state.timestamp;
  last_capture_time_ms = state.capture_time_ms;
  last_timestamp_time_ms = state.last_timestamp_time_ms;
}

pub populate_rtp_state : RtpPacketSequencer → RtpState → RtpState
populate_rtp_state s state = record state {
  sequence_num = s.media_seq_num;
  timestamp = s.last_rtp_timestamp;
  capture_time_ms = s.last_capture_time_ms;
  last_timestamp_time_ms = s.last_timestamp_time_ms;
}
