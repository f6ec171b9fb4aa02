-- ===== src/Sender/Sequencer/Step.antt =====
-- What one call of Sequence gives, and where padding is not allowed.
use mathlib.Core.Option
use naivertc.Base.{
  ltb, length, none, ◌||◌, ℕ, ◌+◌, ◌%◌, ◌^◌, ◌≡◌, refl, ap, arith, ◌==◌, if◌then◌else◌, Bool,
  Bool-cases, true, false, not, ◌&&◌, inl, inr, Option, some,
}
use naivertc.Base.Int.{ℤ}
use naivertc.Unwrapper.{cast_to}
use naivertc.Sender.Sequencer.{
  RtpPacketSequencer, RtpPacketToSend, RtpPacketType, audio, video, retransmission, fec, padding,
  can_send_padding_on_media_ssrc, populate_rtx_padding, populate_padding_fields,
  populate_media_padding, is_padding, is_retransmission, is_ssrc, to_int8, media_payload_type,
  update_last_packet_state, padded, sequence_media, sequence,
}

-- A RED packet has a payload.
abbrev pub IsReadable : RtpPacketToSend → Type 0
IsReadable p = (payload_type : ℕ) × (media_payload_type p ≡ some payload_type)

abbrev pub on_media : ℕ → RtpPacketToSend → Bool
on_media media_ssrc p = p.ssrc == media_ssrc && not (is_retransmission p.packet_type)

abbrev pub on_rtx : ℕ → Option ℕ → RtpPacketToSend → Bool
on_rtx media_ssrc rtx_ssrc p = not (p.ssrc == media_ssrc) && is_ssrc p.ssrc rtx_ssrc

abbrev pub next_of : ℕ → ℕ
next_of n = (n + 1) % 2 ^ 16

-- Whether padding may follow a media packet: its payload type is known, and where it takes a marker, it has one.
abbrev pub allows_padding : Bool → RtpPacketToSend → Option ℕ → Bool
allows_padding require_marker p none = false
allows_padding require_marker p (some payload_type) =
    not (payload_type % 256 == 255) && (not require_marker || p.marker)

abbrev pub on_media_padding : ℕ → RtpPacketToSend → Bool
on_media_padding media_ssrc p = p.ssrc == media_ssrc && is_padding p.packet_type

-- Whether padding on the media SSRC may follow a packet, from whether it could before.
abbrev pub allowed_after : Bool → ℕ → Bool → RtpPacketToSend → Bool
allowed_after require_marker media_ssrc allowed p =
    if on_media media_ssrc p && not (is_padding p.packet_type)
    then allows_padding require_marker p (media_payload_type p)
    else allowed

-- What one call gives: the number of the packet, the numbers to come, and whether padding may follow.
unfoldable pub IsSequenced :
    RtpPacketSequencer
    → RtpPacketToSend
    → Option (RtpPacketSequencer × RtpPacketToSend × Bool)
    → Type 0
IsSequenced s p result =
    let media = on_media s.media_ssrc p in
    let rtx = on_rtx s.media_ssrc s.rtx_ssrc p in
    let require_marker = s.require_marker_before_media_padding in
    (o : RtpPacketSequencer × RtpPacketToSend × Bool) × (result ≡ some o)
    × (o.0.media_ssrc ≡ s.media_ssrc)
    × (o.0.rtx_ssrc ≡ s.rtx_ssrc)
    × (o.0.require_marker_before_media_padding ≡ require_marker)
    × (o.0.media_seq_num ≡ (if media then next_of s.media_seq_num else s.media_seq_num))
    × (o.0.rtx_seq_num ≡ (if rtx then next_of s.rtx_seq_num else s.rtx_seq_num))
    × (o.1.sequence_number
        ≡ (if media then s.media_seq_num else if rtx then s.rtx_seq_num else p.sequence_number))
    × (can_send_padding_on_media_ssrc o.0
        ≡ allowed_after require_marker s.media_ssrc (can_send_padding_on_media_ssrc s) p)

updated_by : RtpPacketSequencer → ℤ → RtpPacketToSend → ℕ → RtpPacketSequencer
updated_by s now_ms p payload_type = record s {
  last_packet_marker_bit = p.marker;
  last_payload_type = to_int8 payload_type;
  last_rtp_timestamp = p.timestamp;
  last_timestamp_time_ms = now_ms;
  last_capture_time_ms = p.capture_time_ms;
}

update-updated :
    (s : RtpPacketSequencer) (now_ms : ℤ) (p : RtpPacketToSend) (payload_type : ℕ)
    → media_payload_type p ≡ some payload_type
    → update_last_packet_state s now_ms p ≡ some (updated_by s now_ms p payload_type)
unfolding update_last_packet_state updated_by
update-updated s now_ms p payload_type e = ap (Option.map (updated_by s now_ms p)) e

allowed-updated :
    (s : RtpPacketSequencer) (now_ms : ℤ) (p : RtpPacketToSend) (payload_type : ℕ)
    → media_payload_type p ≡ some payload_type
    → can_send_padding_on_media_ssrc (updated_by s now_ms p payload_type)
      ≡ allows_padding s.require_marker_before_media_padding p (media_payload_type p)
unfolding can_send_padding_on_media_ssrc updated_by to_int8
allowed-updated s now_ms p payload_type e = rw e (ground arith)

-- Padding on the media SSRC, where it is allowed.
media_filled : RtpPacketSequencer → RtpPacketToSend → RtpPacketToSend
media_filled s p = record p {
  timestamp = s.last_rtp_timestamp;
  capture_time_ms = s.last_capture_time_ms;
  payload_type = cast_to 8 s.last_payload_type;
}

populate-allowed :
    (s : RtpPacketSequencer) (p : RtpPacketToSend)
    → can_send_padding_on_media_ssrc s ≡ true
    → populate_media_padding s p ≡ some (media_filled s p)
unfolding populate_media_padding media_filled
populate-allowed s p allowed = rw allowed refl

populate-fails :
    (s : RtpPacketSequencer) (p : RtpPacketToSend)
    → can_send_padding_on_media_ssrc s ≡ false
    → populate_media_padding s p ≡ none
unfolding populate_media_padding
populate-fails s p stuck = rw stuck refl

padded-allowed :
    (s : RtpPacketSequencer) (now_ms : ℤ) (p : RtpPacketToSend)
    → (p.ssrc == s.media_ssrc) ≡ true
    → is_padding p.packet_type ≡ true
    → can_send_padding_on_media_ssrc s ≡ true
    → padded s now_ms p ≡ some (media_filled s p)
unfolding padded populate_padding_fields
padded-allowed s now_ms p media pad allowed = rw (pad, media) (populate-allowed s p allowed)

padded-fails :
    (s : RtpPacketSequencer) (now_ms : ℤ) (p : RtpPacketToSend)
    → (p.ssrc == s.media_ssrc) ≡ true
    → is_padding p.packet_type ≡ true
    → can_send_padding_on_media_ssrc s ≡ false
    → padded s now_ms p ≡ none
unfolding padded populate_padding_fields
padded-fails s now_ms p media pad stuck = rw (pad, media) (populate-fails s p stuck)

padded-real :
    (s : RtpPacketSequencer) (now_ms : ℤ) (p : RtpPacketToSend)
    → is_padding p.packet_type ≡ false
    → padded s now_ms p ≡ some p
unfolding padded
padded-real s now_ms p real = rw real refl

-- Beside the media SSRC no assertion is in the way.
padded-other :
    (s : RtpPacketSequencer) (now_ms : ℤ) (p : RtpPacketToSend)
    → (p.ssrc == s.media_ssrc) ≡ false
    → (q : RtpPacketToSend) × (padded s now_ms p ≡ some q)
unfolding padded populate_padding_fields
padded-other s now_ms p other = elim (Bool-cases (is_padding p.packet_type)) [
  | inr real ↦ (p, rw real refl)
  | inl pad ↦ elim (Bool-cases (is_ssrc p.ssrc s.rtx_ssrc && not (ltb 0 (length p.payload)))) [
    | inl empty ↦ (populate_rtx_padding s now_ms p, rw (pad, other, empty) refl)
    | inr full ↦ (p, rw (pad, other, full) refl)
  ]
]

-- Padding on the media SSRC where it may not be fails.
pub sequence-fails :
    (s : RtpPacketSequencer) (now_ms : ℤ) (p : RtpPacketToSend)
    → on_media_padding s.media_ssrc p ≡ true
    → can_send_padding_on_media_ssrc s ≡ false
    → sequence s now_ms p ≡ none
unfolding sequence sequence_media Option.bind
sequence-fails s now_ms p at_media stuck =
    let media : (p.ssrc == s.media_ssrc) ≡ true = ground (arith, at_media) in
    let pad : is_padding p.packet_type ≡ true = ground (arith, at_media) in
    let new : is_retransmission p.packet_type ≡ false = not_both p.packet_type pad in
    rw (media, new, padded-fails s now_ms p media pad stuck) refl
  where
    not_both : (t : RtpPacketType) → is_padding t ≡ true → is_retransmission t ≡ false
    not_both padding pad = refl
    not_both audio pad = refl
    not_both video pad = refl
    not_both fec pad = refl
    not_both retransmission pad = absurd cc

media-IsSequenced :
    (s : RtpPacketSequencer) (now_ms : ℤ) (p : RtpPacketToSend)
    → IsReadable p
    → (p.ssrc == s.media_ssrc) ≡ true
    → is_retransmission p.packet_type ≡ false
    → (on_media_padding s.media_ssrc p && not (can_send_padding_on_media_ssrc s)) ≡ false
    → IsSequenced s p (sequence s now_ms p)
unfolding IsSequenced sequence sequence_media updated_by media_filled can_send_padding_on_media_ssrc
    Option.bind media_payload_type
media-IsSequenced s now_ms p (payload_type, e) media new fine =
    elim (Bool-cases (is_padding p.packet_type)) [
      | inl pad ↦ (
        (
          record s { media_seq_num = next_of s.media_seq_num },
          record (media_filled s p) { sequence_number = s.media_seq_num },
          true,
        ),
        rw (media, new, padded-allowed s now_ms p media pad (allowed media pad), pad) refl,
        refl,
        refl,
        refl,
        ground (arith, media, new),
        ground (arith, media, new),
        ground (arith, media, new),
        rw (media, new, pad) refl,
      )
      | inr real ↦ (
        (
          updated_by (record s { media_seq_num = next_of s.media_seq_num }) now_ms
              (record p { sequence_number = s.media_seq_num }) payload_type,
          record p { sequence_number = s.media_seq_num },
          true,
        ),
        rw
            (
              media,
              new,
              padded-real s now_ms p real,
              real,
              update-updated (record s { media_seq_num = next_of s.media_seq_num }) now_ms
                  (record p { sequence_number = s.media_seq_num }) payload_type e,
            )
            refl,
        refl,
        refl,
        refl,
        ground (arith, media, new),
        ground (arith, media, new),
        ground (arith, media, new),
        rw (media, new, real)
            (allowed-updated (record s { media_seq_num = next_of s.media_seq_num }) now_ms
              (record p { sequence_number = s.media_seq_num }) payload_type e),
      )
    ]
  where
    allowed :
        (p.ssrc == s.media_ssrc) ≡ true
        → is_padding p.packet_type ≡ true
        → can_send_padding_on_media_ssrc s ≡ true
    allowed media pad = ground (arith, media, pad, fine)

other-IsSequenced :
    (s : RtpPacketSequencer) (now_ms : ℤ) (p : RtpPacketToSend)
    → (p.ssrc == s.media_ssrc) ≡ false
    → IsSequenced s p (sequence s now_ms p)
unfolding IsSequenced sequence sequence_media updated_by media_filled can_send_padding_on_media_ssrc
    Option.bind media_payload_type
other-IsSequenced s now_ms p other =
    let (q, filled) = padded-other s now_ms p other in
    elim (Bool-cases (is_ssrc p.ssrc s.rtx_ssrc)) [
      | inl rtx ↦ (
        (
          record s { rtx_seq_num = next_of s.rtx_seq_num },
          record q { sequence_number = s.rtx_seq_num },
          true,
        ),
        rw (other, rtx, filled) refl,
        refl,
        refl,
        refl,
        ground (arith, other, rtx),
        ground (arith, other, rtx),
        ground (arith, other, rtx),
        rw other refl,
      )
      | inr neither ↦ (
        (s, p, false),
        rw (other, neither) refl,
        refl,
        refl,
        refl,
        ground (arith, other, neither),
        ground (arith, other, neither),
        ground (arith, other, neither),
        rw other refl,
      )
    ]

pub sequence-IsSequenced :
    (s : RtpPacketSequencer) (now_ms : ℤ) (p : RtpPacketToSend)
    → IsReadable p
    → (on_media_padding s.media_ssrc p && not (can_send_padding_on_media_ssrc s)) ≡ false
    → IsSequenced s p (sequence s now_ms p)
unfolding IsSequenced sequence
sequence-IsSequenced s now_ms p readable fine = elim (Bool-cases (p.ssrc == s.media_ssrc)) [
  | inr other ↦ other-IsSequenced s now_ms p other
  | inl media ↦ elim (Bool-cases (is_retransmission p.packet_type)) [
    | inr new ↦ media-IsSequenced s now_ms p readable media new fine
    | inl again ↦ (
      (s, p, true),
      rw (media, again) refl,
      refl,
      refl,
      refl,
      ground (arith, media, again),
      ground (arith, media, again),
      ground (arith, media, again),
      rw (media, again) refl,
    )
  ]
]
