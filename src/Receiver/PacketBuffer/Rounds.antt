-- ===== src/Receiver/PacketBuffer/Rounds.antt =====
-- src/rtc/rtp_rtcp/rtp/receiver/video/jitter/packet_buffer.cpp, TryToAssembleFrames: its rounds and the loop over them. `none` is a round that is `bad`.
use naivertc.Base.{
  ℕ, zero, suc, ◌+◌, ◌-◌, ◌%◌, ◌^◌, ◌==◌, if◌then◌else◌, Bool, true, not, ◌&&◌, Option, none, some,
  List, [], ◌∷◌, ◌++◌, length, set,
}
use mathlib.Core.Option
use naivertc.Receiver.NackModule.Ordered.{erase_to_upper_bound, starts_by}
use naivertc.Receiver.PacketBuffer.Packets.{
  Packet, Frame, Slots, slot, is_last, is_h264, new_frame, next_num,
}
use naivertc.Receiver.PacketBuffer.State.{PacketBuffer, itself}
use naivertc.Receiver.PacketBuffer.Assembly.{
  is_continuous, KeyframeScan, new_scan, Walked, whole, too_many_nalus, bad_walk, walk,
  set_frame_type, take_packets,
}

-- What one round of the loop of TryToAssembleFrames does.
pub data Step : Type 0 where
  bad : Step
  stopped : PacketBuffer → Step
  going : PacketBuffer → List Frame → Step

-- With what was taken out of the slots.
unfoldable pub give_frame : PacketBuffer → ℕ → ℕ → Option (Slots × Frame) → Step
give_frame b s size none = bad
give_frame b s size (some (slots, f)) =
    let b' = record b {
      packet_buffer = slots;
      missing_packets = erase_to_upper_bound itself s b.missing_packets;
    } in
    if length f.bitstream == size then going b' (f ∷ []) else bad

unfoldable pub take_frame : PacketBuffer → ℕ → ℕ → ℕ → Step
take_frame b start s size =
    let count = (next_num s + 2 ^ 16 - start) % 2 ^ 16 in
    give_frame b s size (take_packets start s count start b.packet_buffer (new_frame count))

-- With the first packet of the frame.
unfoldable pub take_from_first : PacketBuffer → ℕ → ℕ → ℕ → KeyframeScan → Option Packet → Step
take_from_first b start s size scan none = bad
take_from_first b start s size scan (some first) =
    let i = start % length b.packet_buffer in
    let b' = record b {
      packet_buffer = set b.packet_buffer i (some (set_frame_type scan first));
    } in
    if not scan.is_h264_keyframe && starts_by itself start b.missing_packets
    then stopped b'
    else take_frame b' start s size

unfoldable pub take_h264_frame : PacketBuffer → ℕ → ℕ → ℕ → KeyframeScan → Step
take_h264_frame b start s size scan =
    take_from_first b start s size scan (slot b.packet_buffer (start % length b.packet_buffer))

unfoldable pub finish_frame : PacketBuffer → Bool → ℕ → Walked → Step
finish_frame b in_h264 s (whole start size scan) =
    if in_h264 then take_h264_frame b start s size scan else take_frame b start s size
finish_frame b in_h264 s too_many_nalus = stopped b
finish_frame b in_h264 s bad_walk = bad

-- The current packet is continuous.
unfoldable pub assemble_at : PacketBuffer → ℕ → Packet → Step
assemble_at b s p =
    let slots = b.packet_buffer in
    let i = s % length slots in
    let p' = record p { continuous = true } in
    let marked = set slots i (some p') in
    let b' = record b { packet_buffer = marked } in
    if is_last p
    then finish_frame b' (is_h264 p) s (
        walk marked b.sps_pps_idr_is_h264_keyframe (is_h264 p) p.timestamp (length slots - 1) i s 0
          new_scan p')
    else going b' []

unfoldable pub assemble_held : PacketBuffer → ℕ → Option Packet → Step
assemble_held b s none = bad
assemble_held b s (some p) = assemble_at b s p

unfoldable pub assemble_step : PacketBuffer → ℕ → Step
assemble_step b s =
    if is_continuous b.packet_buffer s
    then assemble_held b s (slot b.packet_buffer (s % length b.packet_buffer))
    else stopped b

unfoldable pub assemble_loop : ℕ → PacketBuffer → ℕ → Option (PacketBuffer × List Frame)
assemble_loop zero b s = some (b, [])
assemble_loop (suc left) b s = elim (assemble_step b s) [
  | bad ↦ none
  | stopped b' ↦ some (b', [])
  | going b' frames ↦
      Option.map (λ (b'', more). (b'', frames ++ more)) (assemble_loop left b' (next_num s))
]

unfoldable pub try_to_assemble_frames : PacketBuffer → ℕ → Option (PacketBuffer × List Frame)
try_to_assemble_frames b s = assemble_loop (length b.packet_buffer) b s
