-- ===== src/Congestion/ArrivalTimes/Trimming.antt =====
-- What the trimming and the pushing at the back make of the queue.
use naivertc.Base.{
  ℕ, suc, ◌+◌, ◌-◌, ◌≤◌, ◌≡◌, ap, ◌∙◌, arith, if◌then◌else◌, false, Bool-cases, none, some, [], ◌∷◌,
  ◌++◌, length, length-append, length-drop, length-replicate, drop, replicate, dec_lt, inl, inr,
}
use naivertc.Base.Int.{
  ℤ, pos, negsuc, ◌+ℤ◌, ◌-ℤ◌, ltb_ℤ, eqb_ℤ, pos_part, neg_part, +ℤ_parts, -ℤ_parts, eq_of_parts,
}
use naivertc.Congestion.ArrivalTimes.{
  PacketArrivalTimeMap, max_number_of_packets, end_packet_id, is_placeholder, packet_id_placeholder,
  trim, push_after, skip_placeholders,
}
use naivertc.Congestion.ArrivalTimes.Bounds.{skip_bound}
use naivertc.Congestion.ArrivalTimes.View.{
  packet, packet-nil, packet-skipped, packet-outside, packet-drop, packet-push,
}

pub push_at :
    (m : PacketArrivalTimeMap) (place : ℕ) (t j : ℤ)
    → length m.arrival_times ≤ place
    → is_placeholder t ≡ false
    → packet (push_after (m, place) t).arrival_times m.begin_packet_id j ≡ (
        if eqb_ℤ j (m.begin_packet_id +ℤ pos place)
        then some t
        else packet m.arrival_times m.begin_packet_id j)
unfolding push_after
push_at m place t j le h =
    packet-push m.arrival_times m.begin_packet_id j (place - length m.arrival_times) t h
    ∙ ap
        (λ n.
          if eqb_ℤ j (m.begin_packet_id +ℤ pos n)
          then some t
          else packet m.arrival_times m.begin_packet_id j)
        (omega arith)

pub diff_parts :
    (id b : ℤ) {n : ℕ} → id -ℤ b ≡ pos n → pos_part id + neg_part b ≡ pos_part b + neg_part id + n
diff_parts id b e = omega (arith, -ℤ_parts id b, ap pos_part e, ap neg_part e)

-- What trimming makes of the packets: only those too far behind the new one are lost.
pub trim-packet :
    (m : PacketArrivalTimeMap) (id j : ℤ) (offset : ℕ)
    → length m.arrival_times ≤ offset
    → id -ℤ m.begin_packet_id ≡ pos offset
    → packet (trim m id offset).0.arrival_times (trim m id offset).0.begin_packet_id j ≡ (
        if ltb_ℤ id (j +ℤ pos max_number_of_packets)
        then packet m.arrival_times m.begin_packet_id j
        else none)
unfolding trim
trim-packet m id j offset le e =
    let r = offset - max_number_of_packets + 1 in
    let times = m.arrival_times in
    let b = m.begin_packet_id in
    let skipped = skip_placeholders r (drop r times) in
    let diff = diff_parts id b e in
    let far_sum = +ℤ_parts j (pos max_number_of_packets) in
    let sum = +ℤ_parts b (pos r) in
    let skip_sum = +ℤ_parts b (pos skipped) in
    let bound = skip_bound r (drop r times) in
    elim (dec_lt offset max_number_of_packets) [
      | yes small ↦ elim (Bool-cases (ltb_ℤ j b)) [
        | inl out ↦ ground (arith, small, packet-outside times b j (inl out))
        | inr within ↦
            ground (arith, small, within, diff_parts id b e, +ℤ_parts j (pos max_number_of_packets))
      ]
      | no large ↦ elim (dec_lt r (length times)) [
        | yes some_left ↦ elim (Bool-cases (ltb_ℤ j (b +ℤ pos skipped))) [
          | inl before ↦ elim (Bool-cases (ltb_ℤ j (b +ℤ pos r))) [
            | inl far ↦ ground (
              arith,
              large,
              some_left,
              packet-drop times b j skipped,
              before,
              far,
              diff,
              far_sum,
              sum,
              skip_sum,
              bound,
            )
            | inr near ↦ ground (
              arith,
              large,
              some_left,
              packet-drop times b j skipped,
              before,
              packet-skipped times b j r near before,
            )
          ]
          | inr after ↦ ground (
            arith,
            large,
            some_left,
            packet-drop times b j skipped,
            after,
            diff,
            far_sum,
            sum,
            skip_sum,
            bound,
          )
        ]
        | no none_left ↦ elim (Bool-cases (ltb_ℤ j (b +ℤ pos (length times)))) [
          | inl inside ↦ ground (
            arith,
            large,
            none_left,
            packet-nil id j,
            inside,
            +ℤ_parts b (pos (length times)),
            diff,
            far_sum,
            sum,
            skip_sum,
            bound,
          )
          | inr out ↦
              ground (arith, large, none_left, packet-nil id j, packet-outside times b j (inr out))
        ]
      ]
    ]

pub trim-place :
    (m : PacketArrivalTimeMap) (id : ℤ) (offset : ℕ)
    → length m.arrival_times ≤ offset
    → id -ℤ m.begin_packet_id ≡ pos offset
    → (trim m id offset).0.begin_packet_id +ℤ pos (trim m id offset).1 ≡ id
unfolding trim
trim-place m id offset le e =
    let r = offset - max_number_of_packets + 1 in
    let skipped = skip_placeholders r (drop r m.arrival_times) in
    eq_of_parts ((trim m id offset).0.begin_packet_id +ℤ pos (trim m id offset).1) id (
      ground (
        arith,
        diff_parts id m.begin_packet_id e,
        skip_bound r (drop r m.arrival_times),
        length-drop r m.arrival_times,
        +ℤ_parts m.begin_packet_id (pos skipped),
        +ℤ_parts (m.begin_packet_id +ℤ pos skipped) (pos (offset - skipped)),
        +ℤ_parts m.begin_packet_id (pos offset),
        +ℤ_parts id (pos 0),
      ))

pub diff_below :
    (id b : ℤ) {k : ℕ}
    → id -ℤ b ≡ negsuc k
    → pos_part id + neg_part b + suc k ≡ pos_part b + neg_part id
diff_below id b e = omega (arith, -ℤ_parts id b, ap pos_part e, ap neg_part e)

pub push-end :
    (m : PacketArrivalTimeMap) (place : ℕ) (t : ℤ)
    → length m.arrival_times ≤ place
    → end_packet_id (push_after (m, place) t) ≡ m.begin_packet_id +ℤ pos place +ℤ pos 1
unfolding push_after
push-end m place t le =
    let times = m.arrival_times in
    let gap = replicate (place - length times) packet_id_placeholder in
    let b = m.begin_packet_id in
    let grown = times ++ (gap ++ t ∷ []) in
    eq_of_parts (b +ℤ pos (length grown)) (b +ℤ pos place +ℤ pos 1) (
      omega (
        arith,
        +ℤ_parts b (pos (length grown)),
        +ℤ_parts b (pos place),
        +ℤ_parts (b +ℤ pos place) (pos 1),
        length-append times (gap ++ t ∷ []),
        length-append gap (t ∷ []),
        length-replicate (place - length times) packet_id_placeholder,
      ))
