-- ===== src/Congestion/ArrivalTimes/Adding.antt =====
-- What adding a packet makes of the queue.
use naivertc.Base.{
  suc, ◌≤◌, ◌≡◌, ap, arith, if◌then◌else◌, Bool, false, Bool-cases, none, some, ◌++◌, length,
  length-append, length-set, length-replicate, replicate, dec_lt, inl, inr,
}
use naivertc.Base.Int.{
  max_ℤ, ℤ, pos, negsuc, ◌+ℤ◌, ◌-ℤ◌, ltb_ℤ, eqb_ℤ, pos_part, neg_part, +ℤ_parts, -ℤ_parts,
  eq_of_parts,
}
use naivertc.Congestion.ArrivalTimes.{
  PacketArrivalTimeMap, max_number_of_packets, end_packet_id, is_placeholder, packet_id_placeholder,
  add_at, trim, push_after,
}
use naivertc.Congestion.ArrivalTimes.Bounds.{trim-fits}
use naivertc.Congestion.ArrivalTimes.View.{packet, packet-outside, packet-set, packet-prepend}
use naivertc.Congestion.ArrivalTimes.Trimming.{
  push_at, diff_parts, trim-packet, trim-place, diff_below, push-end,
}

unfoldable pub too_old : PacketArrivalTimeMap → ℤ → Bool
too_old m id = ltb_ℤ id (end_packet_id m -ℤ pos max_number_of_packets)

pub add_at-packet :
    (m : PacketArrivalTimeMap) (z id t j : ℤ)
    → length m.arrival_times ≤ max_number_of_packets
    → id -ℤ m.begin_packet_id ≡ z
    → is_placeholder t ≡ false
    → packet (add_at m z id t).arrival_times (add_at m z id t).begin_packet_id j ≡ (
        if too_old m id
        then packet m.arrival_times m.begin_packet_id j
        else if eqb_ℤ j id
        then some t
        else if ltb_ℤ id (j +ℤ pos max_number_of_packets)
        then packet m.arrival_times m.begin_packet_id j
        else none)
unfolding add_at too_old
add_at-packet m (negsuc k) id t j le e h =
    let times = m.arrival_times in
    let b = m.begin_packet_id in
    let diff = diff_below id b e in
    let far_sum = +ℤ_parts j (pos max_number_of_packets) in
    let end_sum = +ℤ_parts b (pos (length times)) in
    let old_sum = -ℤ_parts (end_packet_id m) (pos max_number_of_packets) in
    let id_sum = +ℤ_parts id (pos 0) in
    let shift = eq_of_parts b (id +ℤ pos (suc k)) (omega (arith, +ℤ_parts id (pos (suc k)))) in
    let filled =
      packet-set (replicate (suc k) packet_id_placeholder ++ times) id j 0 t h (omega arith) in
    let prepended = packet-prepend times b id j (suc k) shift in
    elim (Bool-cases (ltb_ℤ id (j +ℤ pos max_number_of_packets))) [
      | inl near ↦ ground (arith, near, filled, prepended, diff, end_sum, old_sum, id_sum)
      | inr far ↦ ground (
        arith,
        far,
        filled,
        prepended,
        diff,
        far_sum,
        end_sum,
        old_sum,
        id_sum,
        packet-outside times b j (inl (ground (arith, far, far_sum, diff))),
      )
    ]
add_at-packet m (pos offset) id t j le e h =
    let times = m.arrival_times in
    let b = m.begin_packet_id in
    let diff = diff_parts id b e in
    let far_sum = +ℤ_parts j (pos max_number_of_packets) in
    let end_sum = +ℤ_parts b (pos (length times)) in
    let old_sum = -ℤ_parts (end_packet_id m) (pos max_number_of_packets) in
    let id_sum = +ℤ_parts b (pos offset) in
    elim (dec_lt offset (length times)) [
      | yes inside ↦
          let filled = packet-set times b j offset t h inside in
          elim (Bool-cases (ltb_ℤ id (j +ℤ pos max_number_of_packets))) [
            | inl near ↦ ground (arith, inside, near, filled, diff, end_sum, old_sum, id_sum)
            | inr far ↦ ground (
              arith,
              inside,
              far,
              filled,
              diff,
              far_sum,
              end_sum,
              old_sum,
              id_sum,
              packet-outside times b j (inl (ground (arith, far, far_sum, diff, inside, le))),
            )
          ]
      | no beyond ↦
          let trimmed = trim m id offset in
          let place = trim-place m id offset (omega arith) e in
          ground (
            arith,
            beyond,
            diff,
            end_sum,
            old_sum,
            push_at trimmed.0 trimmed.1 t j (trim-fits m id offset le (omega arith)).0 h,
            ap pos_part place,
            ap neg_part place,
            trim-packet m id j offset (omega arith) e,
          )
    ]

pub add_at-end :
    (m : PacketArrivalTimeMap) (z id t : ℤ)
    → length m.arrival_times ≤ max_number_of_packets
    → id -ℤ m.begin_packet_id ≡ z
    → end_packet_id (add_at m z id t)
      ≡ (if too_old m id then end_packet_id m else max_ℤ (end_packet_id m) (id +ℤ pos 1))
unfolding add_at too_old push_after
add_at-end m (negsuc k) id t le e =
    let times = m.arrival_times in
    ground (
      arith,
      diff_below id m.begin_packet_id e,
      +ℤ_parts m.begin_packet_id (pos (length times)),
      -ℤ_parts (end_packet_id m) (pos max_number_of_packets),
      +ℤ_parts id (pos 1),
      length-append (replicate k packet_id_placeholder) times,
      length-replicate k packet_id_placeholder,
      +ℤ_parts id (pos (suc (length (replicate k packet_id_placeholder ++ times)))),
      eq_of_parts (id +ℤ pos (suc (length (replicate k packet_id_placeholder ++ times))))
          (end_packet_id m),
    )
add_at-end m (pos offset) id t le e =
    let times = m.arrival_times in
    let trimmed = trim m id offset in
    let place = trim-place m id offset in
    let ends = +ℤ_parts m.begin_packet_id (pos (length times)) in
    let old_sum = -ℤ_parts (end_packet_id m) (pos max_number_of_packets) in
    let diff = diff_parts id m.begin_packet_id e in
    elim (dec_lt offset (length times)) [
      | yes inside ↦ ground (
        arith,
        inside,
        diff,
        ends,
        old_sum,
        +ℤ_parts id (pos 1),
        length-set times offset t,
        ap (λ n. m.begin_packet_id +ℤ pos n) (length-set times offset t),
      )
      | no beyond ↦ ground (
        arith,
        beyond,
        diff,
        ends,
        old_sum,
        +ℤ_parts id (pos 1),
        push-end trimmed.0 trimmed.1 t (trim-fits m id offset le (omega arith)).0,
        ap (λ z. z +ℤ pos 1) (trim-place m id offset (omega arith) e),
        eq_of_parts (id +ℤ pos 1) (end_packet_id m),
      )
    ]
