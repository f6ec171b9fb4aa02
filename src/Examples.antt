-- ===== src/Examples.antt =====
-- The theorems at concrete packets and numbers, and runs of the definitions.
mod Streams
mod Frames
use naivertc.Base.{
  ℕ, ◌+◌, ◌*◌, ◌/◌, ◌%◌, ◌^◌, ◌≤◌, ◌<◌, ◌≡◌, ◌≢◌, ◌↔◌, refl, arith, not, true, false, none, some,
  List, [], ◌∷◌, ◌++◌, length, map, ltb,
}
use naivertc.Base.Int.{pos, negsuc, ◌≤ℤ◌}
use naivertc.Bytes.{ok, fault, read16, read_big_endian, write_big_endian}
use naivertc.Bytes.Laws.{read-write_big_endian}
use naivertc.Bytes.Signed.{read_signed, write_signed}
use naivertc.Bytes.Signed.Laws.{InSigned24, read-write_signed}
use naivertc.Modulo.{add, subtract, forward_diff, forward_diff_mod, reverse_diff_mod, min_diff_mod}
use naivertc.Modulo.Laws.{
  forward_diff-eq-mod, add-subtract, forward_diff_mod_round, min_diff_mod_lem,
}
use naivertc.WrapAround.{
  ahead_or_at_mod, ahead_or_at, ahead_of_mod, ahead_of, latest, detect_wrap_around, is_newer,
}
use naivertc.WrapAround.Order.{
  ahead_or_at-eq-mod, ahead_of_mod_trichotomy, ahead_of_trichotomy, latest_lem,
  is_newer-eq-ahead_of, ahead_of-eq-lt, detect_wrap_around32_lem,
}
use naivertc.Unwrapper.{cast_to, unwrap_from}
use naivertc.Unwrapper.Laws.{unwrap_all, unwrap_all-wrapped, unwrap_from-IsCast}
use naivertc.Rtcp.Packet.{Buffer, packed, build, build_whole, make_room}
use naivertc.Rtcp.Packet.Laws.{room, make_room-eq-room}
use naivertc.Rtcp.Header
use naivertc.Rtcp.Header.{CommonHeader, receive, packet_size}
use naivertc.Rtcp.Header.Laws.{IsWithin, header-IsWithin}
use naivertc.Rtcp.Feedback.{Feedback}
use naivertc.Rtcp.Items.{All}
use naivertc.Rtcp.Mantissa.{normalize}
use naivertc.Rtcp.Mantissa.Laws.{Drops, Rounded, normalize-Drops}
use naivertc.Rtcp.Nack
use naivertc.Rtcp.Nack.{FciItem, Nack, set_packet_ids, unpack_items}
use naivertc.Rtcp.Nack.Items.{wrap, unpack-set_packet_ids}
use naivertc.Rtcp.Nack.Fragments.{carried}
use naivertc.Rtcp.Nack.Fragments.Loop.{build-carried}
use naivertc.Rtcp.Nack.Delivery.{set_packet_ids-build-carried}
use naivertc.Rtcp.Pli
use naivertc.Rtcp.Pli.Laws.{pli-parse-build}
use naivertc.Rtcp.Fir
use naivertc.Rtcp.Fir.{Fir}
use naivertc.Rtcp.Fir.Laws.{IsFir, fir-parse-build}
use naivertc.Rtcp.Remb
use naivertc.Rtcp.Remb.{Remb}
use naivertc.Rtcp.Remb.Laws.{IsRemb, remb-parse-build}
use naivertc.Rtcp.LossNotification
use naivertc.Rtcp.LossNotification.{LossNotification}
use naivertc.Rtcp.LossNotification.Laws.{IsLossNotification, loss_notification-parse-build}
use naivertc.Rtcp.ReportBlock.{ReportBlock, set_cumulative_packet_lost}
use naivertc.Rtcp.ReportBlock.Laws.{IsReportBlock, set_cumulative_packet_lost-accepts}
use naivertc.Rtcp.Report.{
  ReceiverReport, SenderReport, parse_receiver_report, parse_sender_report, pack_receiver_report,
  pack_sender_report, receiver_report_size, sender_report_size,
}
use naivertc.Rtcp.Report.Laws.{
  IsReceiverReport, IsSenderReport, receiver_report-parse-build, sender_report-parse-build,
}
use naivertc.Rtcp.Tmmb
use naivertc.Rtcp.Tmmb.{TmmbItem, Tmmb, parse_tmmbr, parse_tmmbn, pack_tmmbr, pack_tmmbn}
use naivertc.Rtcp.Tmmb.Items.{Close}
use naivertc.Rtcp.Tmmb.Laws.{IsTmmb, tmmbr-parse-build, tmmbn-parse-build}
use naivertc.Rtcp.Safety.{parsers-ne-fault}

abbrev two_ssrcs : Feedback
two_ssrcs = record { sender_ssrc = 0x12345678; media_ssrc = 0x23456789 }

abbrev empty_nack : Nack
empty_nack = record { feedback = two_ssrcs; fci_items = []; packet_ids = [] }

-- Over the wrap from 65535 to 0, with gaps beyond a mask, in packets that hold two items at most.
set_packet_ids-build-carried_example :
    (made : Nack) × (sent : List (List ℕ)) × (set_packet_ids empty_nack
        (map wrap (65534 ∷ 65537 ∷ 65600 ∷ 66000 ∷ []))
      ≡ some made)
    × (build (Nack.pack_into made) true 20 ≡ packed (record { sent = sent; bytes = [] }))
    × All (λ (p : List ℕ). length p ≤ 20) sent
    × (carried empty_nack sent ≡ ok (map wrap (65534 ∷ 65537 ∷ 65600 ∷ 66000 ∷ [])))
set_packet_ids-build-carried_example =
    set_packet_ids-build-carried empty_nack empty_nack 65534 (65537 ∷ 65600 ∷ 66000 ∷ []) 20
      (omega arith, omega arith, (omega arith, omega arith, (omega arith, omega arith, tt)))
      (omega arith, omega arith) (omega arith) (omega arith)

abbrev tmmb : Tmmb
tmmb = record {
  feedback = record { sender_ssrc = 0x12345678; media_ssrc = 0 };
  items = record { ssrc = 0x23456789; bitrate_bps = 312000123; packet_overhead = 60 } ∷ [];
}

tmmb-IsTmmb : IsTmmb tmmb
tmmb-IsTmmb = record {
  feedback = (omega arith, omega arith);
  media = refl;
  few = omega arith;
  items = (record { ssrc_range = omega arith; bitrate = omega arith; overhead = omega arith }, tt);
}

tmmbr-parse-build_example :
    (kept : List TmmbItem) × (receive
        (parse_tmmbr tmmb)
        (build_whole (pack_tmmbr tmmb) (Tmmb.size_of tmmb))
      ≡ ok (record tmmb { items = kept }))
    × Close tmmb.items kept
tmmbr-parse-build_example = tmmbr-parse-build tmmb tmmb tmmb-IsTmmb (omega arith)

tmmbn-parse-build_example :
    (kept : List TmmbItem) × (receive
        (parse_tmmbn tmmb)
        (build_whole (pack_tmmbn tmmb) (Tmmb.size_of tmmb))
      ≡ ok (record tmmb { items = kept }))
    × Close tmmb.items kept
tmmbn-parse-build_example = tmmbn-parse-build tmmb tmmb tmmb-IsTmmb

parsers-ne-fault_example :
    (receive (Nack.parse empty_nack) (0x81 ∷ 205 ∷ 0 ∷ 3 ∷ 0 ∷ []) ≢ fault)
    × (receive parse_sender_report (0x81 ∷ 205 ∷ 0 ∷ 3 ∷ 0 ∷ []) ≢ fault)
    × (receive parse_receiver_report (0x81 ∷ 205 ∷ 0 ∷ 3 ∷ 0 ∷ []) ≢ fault)
    × (receive Remb.parse (0x81 ∷ 205 ∷ 0 ∷ 3 ∷ 0 ∷ []) ≢ fault)
    × (receive Fir.parse (0x81 ∷ 205 ∷ 0 ∷ 3 ∷ 0 ∷ []) ≢ fault)
    × (receive Pli.parse (0x81 ∷ 205 ∷ 0 ∷ 3 ∷ 0 ∷ []) ≢ fault)
    × (receive LossNotification.parse (0x81 ∷ 205 ∷ 0 ∷ 3 ∷ 0 ∷ []) ≢ fault)
    × (receive (parse_tmmbr tmmb) (0x81 ∷ 205 ∷ 0 ∷ 3 ∷ 0 ∷ []) ≢ fault)
    × (receive (parse_tmmbn tmmb) (0x81 ∷ 205 ∷ 0 ∷ 3 ∷ 0 ∷ []) ≢ fault)
parsers-ne-fault_example = parsers-ne-fault (0x81 ∷ 205 ∷ 0 ∷ 3 ∷ 0 ∷ []) empty_nack tmmb

unwrap_all-wrapped_example :
    unwrap_all 16
      (record { last_unwrapped_value = none })
      (map (λ b. b % 2 ^ 16) (65000 ∷ 66000 ∷ 65500 ∷ []))
    ≡ map pos (65000 ∷ 66000 ∷ 65500 ∷ [])
unwrap_all-wrapped_example =
    unwrap_all-wrapped 15 65000 (66000 ∷ 65500 ∷ []) (omega arith)
      (omega arith, omega arith, (omega arith, omega arith, tt))

abbrev block : ReportBlock
block = record {
  source_ssrc = 0x23456789;
  fraction_lost = 55;
  cumulative_packet_lost = negsuc 0x111110;
  extended_highest_seq_num = 0x22222222;
  jitter = 0x33333333;
  last_sr_ntp_timestamp = 0x44444444;
  delay_since_last_sr = 0x55555555;
}

block-IsReportBlock : IsReportBlock block
block-IsReportBlock = record {
  ssrc = omega arith;
  fraction = omega arith;
  lost = omega arith;
  highest = omega arith;
  jitter_range = omega arith;
  last = omega arith;
  delay = omega arith;
}

abbrev receiver_report : ReceiverReport
receiver_report = record { sender_ssrc = 0x12345678; report_blocks = block ∷ block ∷ [] }

receiver_report-IsReceiverReport : IsReceiverReport receiver_report
receiver_report-IsReceiverReport = record {
  ssrc = omega arith;
  few = omega arith;
  blocks = (block-IsReportBlock, (block-IsReportBlock, tt));
}

abbrev sender_report : SenderReport
sender_report = record {
  report = receiver_report;
  ntp = 0x1112141822242628;
  rtp_timestamp = 0x33343536;
  sender_packet_count = 0x44454647;
  sender_octet_count = 0x55565758;
}

sender_report-IsSenderReport : IsSenderReport sender_report
sender_report-IsSenderReport = record {
  common = receiver_report-IsReceiverReport;
  ntp_range = omega arith;
  timestamp = omega arith;
  packets = omega arith;
  octets = omega arith;
}

sender_report-parse-build_example :
    receive parse_sender_report
      (build_whole (pack_sender_report sender_report) (sender_report_size sender_report))
    ≡ ok sender_report
sender_report-parse-build_example =
    sender_report-parse-build sender_report sender_report-IsSenderReport

receiver_report-parse-build_example :
    receive parse_receiver_report
      (build_whole (pack_receiver_report receiver_report) (receiver_report_size receiver_report))
    ≡ ok receiver_report
receiver_report-parse-build_example =
    receiver_report-parse-build receiver_report receiver_report-IsReceiverReport

abbrev remb : Remb
remb = record {
  feedback = record { sender_ssrc = 0x12345678; media_ssrc = 0 };
  bitrate_bps = pos 0x3fb93ffff;
  ssrcs = 0x23456789 ∷ 0x2345678a ∷ [];
}

remb-IsRemb : IsRemb remb
remb-IsRemb = record {
  feedback = (omega arith, omega arith);
  media = refl;
  not_negative = omega arith;
  bitrate = omega arith;
  few = omega arith;
  ssrcs = (omega arith, (omega arith, tt));
}

remb-parse-build_example :
    (w : ℕ) × (receive Remb.parse (build_whole (Remb.pack_into remb) (Remb.size_of remb))
      ≡ ok (record remb { bitrate_bps = pos w }))
    × Rounded 17 0x3fb93ffff w
remb-parse-build_example = remb-parse-build remb remb-IsRemb

unpack-set_packet_ids_example :
    (items : List FciItem) × (set_packet_ids empty_nack (map wrap (65534 ∷ 65537 ∷ 65600 ∷ []))
      ≡ some (record empty_nack {
        fci_items = items;
        packet_ids = map wrap (65534 ∷ 65537 ∷ 65600 ∷ []);
      }))
    × (unpack_items items ≡ map wrap (65534 ∷ 65537 ∷ 65600 ∷ []))
    × (length items ≤ 3)
unpack-set_packet_ids_example =
    unpack-set_packet_ids empty_nack 65534 (65537 ∷ 65600 ∷ [])
      (omega arith, omega arith, (omega arith, omega arith, tt))

abbrev two_items : Nack
two_items = record {
  feedback = two_ssrcs;
  fci_items = record { first_pid = 10; bitmask = 5 } ∷ record { first_pid = 40; bitmask = 0 } ∷ [];
  packet_ids = [];
}

build-carried_example :
    (sent : List (List ℕ)) × (build (Nack.pack_into two_items) true 16
      ≡ packed (record { sent = sent; bytes = [] }))
    × All (λ (p : List ℕ). length p ≤ 16) sent
    × (carried empty_nack sent ≡ ok (unpack_items two_items.fci_items))
build-carried_example =
    build-carried two_items empty_nack 16 (omega arith) (omega arith) (omega arith, omega arith)
      (omega arith) ((omega arith, omega arith), ((omega arith, omega arith), tt))

ahead_of-eq-lt_example : ahead_of 16 (65537 % 2 ^ 16) (65534 % 2 ^ 16) ≡ ltb 65534 65537
ahead_of-eq-lt_example = ahead_of-eq-lt 15 65534 65537 (omega arith) (omega arith)

ahead_of_trichotomy_example : ahead_of 16 3 65533 ≡ not (ahead_of 16 65533 3)
ahead_of_trichotomy_example =
    ahead_of_trichotomy 15 3 65533 (omega arith) (omega arith) (omega arith)

abbrev loss_notification : LossNotification
loss_notification = record {
  feedback = two_ssrcs;
  last_decoded = 0xfffe;
  last_received = 0x0003;
  decodability_flag = true;
}

loss_notification-IsLossNotification : IsLossNotification loss_notification
loss_notification-IsLossNotification = record {
  feedback = (omega arith, omega arith);
  decoded = omega arith;
  received = omega arith;
  near = omega arith;
}

loss_notification-parse-build_example :
    receive LossNotification.parse
      (build_whole (LossNotification.pack_into loss_notification) LossNotification.size_of)
    ≡ ok loss_notification
loss_notification-parse-build_example =
    loss_notification-parse-build loss_notification loss_notification-IsLossNotification

abbrev fir : Fir
fir = record {
  feedback = record { sender_ssrc = 0x12345678; media_ssrc = 0 };
  requests = record { ssrc = 0x23456789; seq_nr = 13 } ∷ record { ssrc = 7; seq_nr = 255 } ∷ [];
}

fir-IsFir : IsFir fir
fir-IsFir = record {
  feedback = (omega arith, omega arith);
  media = refl;
  some_request = omega arith;
  few = omega arith;
  requests = ((omega arith, omega arith), ((omega arith, omega arith), tt));
}

fir-parse-build_example :
    receive Fir.parse (build_whole (Fir.pack_into fir) (Fir.size_of fir)) ≡ ok fir
fir-parse-build_example = fir-parse-build fir fir-IsFir

pli-parse-build_example :
    receive Pli.parse (build_whole (Pli.pack_into two_ssrcs) Pli.size_of) ≡ ok two_ssrcs
pli-parse-build_example = pli-parse-build two_ssrcs (omega arith, omega arith)

abbrev padded_packet : List ℕ
padded_packet = 0xa1 ∷ 206 ∷ 0 ∷ 1 ∷ 7 ∷ 8 ∷ 9 ∷ 2 ∷ []

padded_header : CommonHeader
padded_header = record {
  packet_type = 206;
  count_or_fmt = 1;
  padding_size = 2;
  payload_size = 2;
  payload = 7 ∷ 8 ∷ 9 ∷ 2 ∷ [];
}

padded_parse : Header.parse padded_packet 8 ≡ ok padded_header
unfolding Header.parse padded_header read16
padded_parse = refl

header-IsWithin_example : IsWithin padded_packet 8 padded_header
header-IsWithin_example = header-IsWithin padded_packet 8 padded_header padded_parse

unwrap_from-IsCast_example :
    (pos 0 ≤ℤ unwrap_from 16 (pos 65537) 65530)
    × (cast_to 16 (unwrap_from 16 (pos 65537) 65530) ≡ 65530)
unwrap_from-IsCast_example = unwrap_from-IsCast 16 65537 65530 (omega arith)

ahead_or_at-eq-mod_example : ahead_or_at 16 32768 0 ≡ ahead_or_at_mod (2 ^ 16) 32768 0
ahead_or_at-eq-mod_example = ahead_or_at-eq-mod 15 32768 0 (omega arith) (omega arith)

detect_wrap_around32_lem_example :
    ((detect_wrap_around 32 0xffffffff 5 ≡ pos 1) ↔ (5 + 2 ^ 31 < 0xffffffff))
    × ((detect_wrap_around 32 0xffffffff 5 ≡ negsuc 0) ↔ (0xffffffff + 2 ^ 31 < 5))
detect_wrap_around32_lem_example = detect_wrap_around32_lem 0xffffffff 5 (omega arith) (omega arith)

normalize-Drops_example :
    (k : ℕ) × (normalize 64 0x3ffff 0x3fb93ffff 0 ≡ some (0x3fb93ffff / 2 ^ k, 0 + k))
    × Drops 18 0x3fb93ffff k
    × (k ≤ 63)
normalize-Drops_example = normalize-Drops 63 17 0x3fb93ffff 0 (omega arith)

abbrev three_bytes : Buffer
three_bytes = record { sent = []; bytes = 1 ∷ 2 ∷ 3 ∷ [] }

read-write_big_endian_example :
    read_big_endian 3 (write_big_endian 3 0x12345678 ++ (9 ∷ [])) 0 ≡ ok (0x12345678 % 2 ^ (3 * 8))
read-write_big_endian_example = read-write_big_endian 3 0x12345678 (9 ∷ [])

read-write_signed_example :
    read_signed 3 (write_signed 3 (negsuc 0x111110) ++ (9 ∷ [])) 0 ≡ ok (negsuc 0x111110)
read-write_signed_example = read-write_signed (negsuc 0x111110) (9 ∷ []) (omega arith)

add-subtract_example :
    (add 5 (subtract 5 2 8) 8 ≡ 2) × (subtract 5 (add 5 2 8) 8 ≡ 2) × (add 5 2 8 ≡ (2 + 8) % 5)
add-subtract_example = add-subtract 5 2 8 (omega arith) (omega arith) (omega arith)

forward_diff_mod_round_example :
    ((4 + forward_diff_mod 5 4 1) % 5 ≡ 1)
    × (reverse_diff_mod 5 1 4 ≡ forward_diff_mod 5 4 1)
    × ((forward_diff_mod 5 4 1 + reverse_diff_mod 5 4 1) % 5 ≡ 0)
forward_diff_mod_round_example = forward_diff_mod_round 5 4 1 (omega arith) (omega arith)
