-- ===== src/Examples/Streams.antt =====
-- The theorems on what the sender, the receiver, the congestion controller and a chunk keep, at concrete runs.
use naivertc.Base.{◌≤◌, ◌≡◌, refl, arith, true, false, some, [], ◌∷◌}
use naivertc.Base.Int.{pos}
use naivertc.Congestion.ArrivalTimes.{PacketArrivalTimeMap, fresh_map, add_packet, erase_to}
use naivertc.Congestion.ArrivalTimes.Bounds.{
  IsBounded, Reachable, fresh, adds, arrival_times-IsBounded,
}
use naivertc.Congestion.ArrivalTimes.Refinement.{
  window_of, window_add, window_erase, arrival_times-refines-window,
}
use naivertc.Congestion.IntervalBudget.{
  IntervalBudget, set_target_bitrate, budget_window, new_budget, increase_budget, consume_budget,
  available_bytes,
}
use naivertc.Congestion.IntervalBudget.Bounds.{
  nearest_bytes, IsBalanced, created, increased, consumed, interval_budget-IsBalanced,
}
use naivertc.Receiver.DecodedFrames.{DecodedFramesHistory, new_history, insert_frame, was_decoded}
use naivertc.Receiver.DecodedFrames.Refinement.{is_known, started, inserted, was_decoded-refines}
use naivertc.Receiver.NackModule.{NackModuleImpl, new_nack_module, insert_first, update_rtt}
use naivertc.Receiver.NackModule.Invariant
use naivertc.Receiver.NackModule.Invariant.{
  IsWellFormed, rtt_updated, insert_first-Reachable, nack_module-IsWellFormed,
}
use naivertc.Base.{ℕ, List, replicate, take}
use naivertc.Base.Int.{negsuc}
use naivertc.Sender.Sequencer.{RtpPacketSequencer, RtpPacketToSend, video, padding}
use naivertc.Rtcp.LastChunk.{LastChunk, clear, can_add, add, emit, encode_last, append_to, decode}
use naivertc.Rtcp.LastChunk.Filled
use naivertc.Rtcp.LastChunk.Filled.{Added, emptied, emitted}
use naivertc.Rtcp.LastChunk.Laws.{last_chunk-decode-encode, last_chunk-decode-emit}

abbrev two_packets : PacketArrivalTimeMap
two_packets = add_packet (add_packet fresh_map (pos 10) (pos 100)) (pos 12) (pos 101)

two_packets-Reachable : Reachable two_packets
two_packets-Reachable = adds (pos 12) (pos 101) (adds (pos 10) (pos 100) fresh)

arrival_times-IsBounded_example : IsBounded two_packets
arrival_times-IsBounded_example = arrival_times-IsBounded two_packets two_packets-Reachable

arrival_times-refines-window_example :
    (window_of (add_packet two_packets (pos 8) (pos 102))
      ≡ window_add (window_of two_packets) (pos 8) (pos 102))
    × (window_of (erase_to two_packets (pos 8)) ≡ window_erase (window_of two_packets) (pos 8))
arrival_times-refines-window_example =
    arrival_times-refines-window two_packets (pos 8) (pos 102) two_packets-Reachable refl

abbrev one_packet : NackModuleImpl
one_packet = insert_first (new_nack_module (pos 0)) 65534 true

one_packet-Reachable : Invariant.Reachable one_packet
one_packet-Reachable =
    insert_first-Reachable (new_nack_module (pos 0)) (pos 1000) 65534 true false refl (omega arith)
      (Invariant.created (pos 0))

nack_module-IsWellFormed_example : IsWellFormed (update_rtt one_packet (pos 40))
nack_module-IsWellFormed_example =
    nack_module-IsWellFormed (update_rtt one_packet (pos 40))
      (rtt_updated (pos 40) one_packet-Reachable)

abbrev two_frames : DecodedFramesHistory
two_frames = insert_frame (insert_frame (new_history 8) (pos 5) 3000) (pos 7) 6000

was_decoded-refines_example :
    was_decoded two_frames (pos 6) ≡ is_known (7 ∷ 5 ∷ []) two_frames.window_size 6
was_decoded-refines_example = was_decoded-refines (7 ∷ 5 ∷ []) two_frames 6 (omega arith) (
    inserted 7 6000 (inserted 5 3000 (started 8 (omega arith) (omega arith)) tt (omega arith))
      (omega arith) (omega arith))

abbrev spent : IntervalBudget
spent = consume_budget (increase_budget (new_budget 800000 true) 5000) 1500

interval_budget-IsBalanced_example :
    IsBalanced spent × (available_bytes spent ≤ nearest_bytes spent.target_bitrate budget_window)
unfolding new_budget set_target_bitrate
interval_budget-IsBalanced_example =
    interval_budget-IsBalanced spent (
      consumed 1500 (omega arith)
        (increased 5000 (omega arith) (created 800000 true (omega arith))))

-- Seven sizes, one of them large, that fill a chunk of two bits each.
abbrev fresh_chunk : LastChunk
fresh_chunk = record {
  delta_sizes = replicate 14 9;
  size = 3;
  all_same = false;
  has_large_delta = true;
}

abbrev add_all : LastChunk → List ℕ → LastChunk
add_all c [] = c
add_all c (d ∷ ds) = add_all (add c d) ds

abbrev seven_sizes : List ℕ
seven_sizes = 1 ∷ 0 ∷ 2 ∷ 1 ∷ 1 ∷ 0 ∷ 2 ∷ []

abbrev full_chunk : LastChunk
full_chunk = add_all (clear fresh_chunk) seven_sizes

full_chunk-Added : Added seven_sizes full_chunk
unfolding can_add add clear
full_chunk-Added =
    Filled.adds 2
      (Filled.adds 0
        (Filled.adds 1
          (Filled.adds 1
            (Filled.adds 2
              (Filled.adds 0 (Filled.adds 1 (emptied fresh_chunk refl) (omega arith) refl)
                (omega arith) refl)
              (omega arith) refl)
            (omega arith) refl)
          (omega arith) refl)
        (omega arith) refl)
      (omega arith) refl

last_chunk-decode-encode_example :
    (append_to full_chunk [] ≡ seven_sizes)
    × (append_to (decode fresh_chunk (encode_last full_chunk) 7) [] ≡ seven_sizes)
last_chunk-decode-encode_example =
    last_chunk-decode-encode seven_sizes full_chunk fresh_chunk full_chunk-Added (omega arith)

last_chunk-decode-emit_example :
    append_to (decode fresh_chunk (emit full_chunk).0 (emitted full_chunk)) []
    ≡ take (emitted full_chunk) seven_sizes
unfolding can_add add clear
last_chunk-decode-emit_example =
    last_chunk-decode-emit seven_sizes full_chunk fresh_chunk 1 full_chunk-Added refl

abbrev sequencer : RtpPacketSequencer
sequencer = record {
  media_ssrc = 11;
  rtx_ssrc = some 22;
  require_marker_before_media_padding = true;
  media_seq_num = 65535;
  rtx_seq_num = 7;
  last_payload_type = negsuc 0;
  last_rtp_timestamp = 0;
  last_capture_time_ms = pos 0;
  last_timestamp_time_ms = pos 0;
  last_packet_marker_bit = false;
}

abbrev red_packet : RtpPacketToSend
red_packet = record {
  ssrc = 11;
  packet_type = video;
  sequence_number = 0;
  timestamp = 9000;
  capture_time_ms = pos 100;
  payload_type = 96;
  marker = true;
  is_red = true;
  payload = 97 ∷ 1 ∷ [];
}

abbrev some_packets : List RtpPacketToSend
some_packets =
    red_packet
    ∷ record red_packet { ssrc = 22; packet_type = padding; is_red = false; payload = [] }
    ∷ record red_packet { packet_type = padding }
    ∷ []
