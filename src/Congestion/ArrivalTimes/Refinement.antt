-- ===== src/Congestion/ArrivalTimes/Refinement.antt =====
-- The map of arrival times as a window over a function from ids to times, and that the queue implements it.
use naivertc.Base.{
  ◌≤◌, ◌≡◌, refl, ap, ◌∙◌, arith, if◌then◌else◌, Bool, true, false, ◌&&◌, Bool-cases, Option, none,
  some, [], ◌∷◌, length, length-drop, min, drop, inl, inr,
}
use naivertc.Base.Int.{ℤ, pos, negsuc, ◌+ℤ◌, ◌-ℤ◌, ltb_ℤ, max_ℤ, eqb_ℤ, +ℤ_parts, eq_of_parts}
use naivertc.Congestion.ArrivalTimes.{
  PacketArrivalTimeMap, max_number_of_packets, end_packet_id, is_placeholder, at, has_received,
  add_packet, add_at, erase_to, erase_offset, erase_front,
}
use naivertc.Congestion.ArrivalTimes.Bounds.{
  IsBounded, Reachable, arrival_times-IsBounded, add_at-received,
}
use naivertc.Congestion.ArrivalTimes.View.{
  packet, arrival-packet, packet-nil, packet-outside, packet-drop, packet-push,
}
use naivertc.Congestion.ArrivalTimes.Trimming.{diff_parts, diff_below}
use naivertc.Congestion.ArrivalTimes.Adding.{too_old, add_at-packet, add_at-end}

-- The abstract state: the id behind the newest, and the time at which the packet with an id arrived.
pub record Window : Type 0 where
  pub seen : Bool
  pub end : ℤ
  pub arrival : ℤ → Option ℤ

pub window_of : PacketArrivalTimeMap → Window
window_of m = record {
  seen = m.has_received_packet;
  end = end_packet_id m;
  arrival = λ j. if has_received m j then at m j else none;
}

-- A packet too far behind the newest is left out, and one that arrives ends those too far behind it.
pub window_add : Window → ℤ → ℤ → Window
window_add w packet_id arrival_time =
    if w.seen && ltb_ℤ packet_id (w.end -ℤ pos max_number_of_packets) then w else record {
      seen = true;
      end = (if w.seen then max_ℤ w.end (packet_id +ℤ pos 1) else packet_id +ℤ pos 1);
      arrival = λ j.
          if eqb_ℤ j packet_id
          then some arrival_time
          else if ltb_ℤ packet_id (j +ℤ pos max_number_of_packets)
          then w.arrival j
          else none;
    }

pub window_erase : Window → ℤ → Window
window_erase w packet_id = record w {
  arrival = λ j. if ltb_ℤ j packet_id then none else w.arrival j;
}

-- The window of a queue, with the packets by place.
abbrev window : Bool → ℤ → (ℤ → Option ℤ) → Window
window seen end arrival = record { seen = seen; end = end; arrival = arrival }

window-eq :
    {a b : Bool} {e : ℤ} (e' : ℤ) {f : ℤ → Option ℤ} (g : ℤ → Option ℤ)
    → a ≡ b
    → e ≡ e'
    → ((j : ℤ) → f j ≡ g j)
    → window a e f ≡ window b e' g
window-eq e' g p q r = λ i. window (p i) (q i) (λ j. r j i)

add_at-window :
    (m : PacketArrivalTimeMap) (id t : ℤ)
    → length m.arrival_times ≤ max_number_of_packets
    → m.has_received_packet ≡ true
    → is_placeholder t ≡ false
    → window_of (add_at m (id -ℤ m.begin_packet_id) id t) ≡ window_add (window_of m) id t
unfolding window_of window_add too_old
add_at-window m id t le seen h =
    let z = id -ℤ m.begin_packet_id in
    let added = add_at m z id t in
    let flag = add_at-received m z id t in
    let end = add_at-end m z id t le refl in
    let at_place = (λ (j : ℤ). arrival-packet added j ∙ add_at-packet m z id t j le refl h) in
    elim (Bool-cases (too_old m id)) [
      | inl old ↦
          window-eq (end_packet_id m) (λ j. if has_received m j then at m j else none) flag
            (ground (arith, old, end)) (λ j. ground (arith, old, at_place j, arrival-packet m j))
          ∙ ground (arith, old, seen)
      | inr recent ↦
          window-eq
            (if m.has_received_packet then max_ℤ (end_packet_id m) (id +ℤ pos 1) else id +ℤ pos 1)
            (λ j.
              if eqb_ℤ j id
              then some t
              else if ltb_ℤ id (j +ℤ pos max_number_of_packets)
              then if has_received m j then at m j else none
              else none)
            (flag ∙ seen) (ground (arith, recent, seen, end))
            (λ j. ground (arith, recent, at_place j, arrival-packet m j))
          ∙ ground (arith, recent, seen)
    ]

abbrev single : ℤ → ℤ → PacketArrivalTimeMap
single id t = record { arrival_times = t ∷ []; begin_packet_id = id; has_received_packet = true }

-- The first packet starts the queue at its own id.
first-window :
    (m : PacketArrivalTimeMap) (id t : ℤ)
    → m.has_received_packet ≡ false
    → m.arrival_times ≡ []
    → is_placeholder t ≡ false
    → window_of (single id t) ≡ window_add (window_of m) id t
unfolding window_of window_add
first-window m id t unseen empty h =
    window-eq (if m.has_received_packet then max_ℤ (end_packet_id m) (id +ℤ pos 1) else id +ℤ pos 1)
      (λ j.
        if eqb_ℤ j id
        then some t
        else if ltb_ℤ id (j +ℤ pos max_number_of_packets)
        then if has_received m j then at m j else none
        else none)
      refl (ground (arith, unseen))
      (λ j. ground (
        arith,
        arrival-packet (single id t) j,
        packet-push [] id j 0 t h,
        packet-nil id j,
        +ℤ_parts id (pos 0),
        arrival-packet m j,
        ap (λ times. packet times m.begin_packet_id j) empty ∙ packet-nil m.begin_packet_id j,
      ))
    ∙ ground (arith, unseen)

erase_offset-packet :
    (m : PacketArrivalTimeMap) (z id j : ℤ)
    → id -ℤ m.begin_packet_id ≡ z
    → packet (erase_offset m z).arrival_times (erase_offset m z).begin_packet_id j
      ≡ (if ltb_ℤ j id then none else packet m.arrival_times m.begin_packet_id j)
unfolding erase_offset erase_front
erase_offset-packet m (negsuc k) id j e =
    let times = m.arrival_times in
    let b = m.begin_packet_id in
    elim (Bool-cases (ltb_ℤ j b)) [
      | inl out ↦ ground (arith, packet-outside times b j (inl out))
      | inr after ↦ ground (arith, after, diff_below id b e)
    ]
erase_offset-packet m (pos offset) id j e =
    let times = m.arrival_times in
    let b = m.begin_packet_id in
    let r = min offset (length times) in
    let sum = +ℤ_parts b (pos r) in
    let end_sum = +ℤ_parts b (pos (length times)) in
    elim (Bool-cases (ltb_ℤ j (b +ℤ pos (length times)))) [
      | inl inside ↦
          ground (arith, packet-drop times b j r, inside, sum, end_sum, diff_parts id b e)
      | inr out ↦ ground (arith, packet-drop times b j r, packet-outside times b j (inr out))
    ]

erase_offset-end :
    (m : PacketArrivalTimeMap) (z : ℤ) → end_packet_id (erase_offset m z) ≡ end_packet_id m
unfolding erase_offset erase_front
erase_offset-end m (negsuc k) = refl
erase_offset-end m (pos offset) =
    let times = m.arrival_times in
    let b = m.begin_packet_id in
    let r = min offset (length times) in
    let rest = length (drop r times) in
    eq_of_parts (b +ℤ pos r +ℤ pos rest) (end_packet_id m) (
      omega (
        arith,
        +ℤ_parts b (pos r),
        +ℤ_parts (b +ℤ pos r) (pos rest),
        +ℤ_parts b (pos (length times)),
        length-drop r times,
      ))

erase_offset-received :
    (m : PacketArrivalTimeMap) (z : ℤ)
    → (erase_offset m z).has_received_packet ≡ m.has_received_packet
unfolding erase_offset erase_front
erase_offset-received m (negsuc k) = refl
erase_offset-received m (pos offset) = refl

erase_to-window :
    (m : PacketArrivalTimeMap) (id : ℤ) → window_of (erase_to m id) ≡ window_erase (window_of m) id
unfolding window_of window_erase erase_to
erase_to-window m id =
    let z = id -ℤ m.begin_packet_id in
    window-eq (end_packet_id m)
      (λ j. if ltb_ℤ j id then none else if has_received m j then at m j else none)
      (erase_offset-received m z) (erase_offset-end m z)
      (λ j. ground (
        arith,
        arrival-packet (erase_offset m z) j,
        erase_offset-packet m z id j refl,
        arrival-packet m j,
      ))

-- In every state that a map of arrival times reaches, adding a packet with a time other than 0 and
-- erasing up to an id do to the map what they do to a window: a packet more than 2 ^ 15 before the
-- id behind the newest is left out, any other is entered and ends those 2 ^ 15 or more behind it,
-- and erasing ends the packets before the id.
pub arrival_times-refines-window :
    (m : PacketArrivalTimeMap) (packet_id arrival_time : ℤ)
    → Reachable m
    → is_placeholder arrival_time ≡ false
    → (window_of (add_packet m packet_id arrival_time)
        ≡ window_add (window_of m) packet_id arrival_time)
      × (window_of (erase_to m packet_id) ≡ window_erase (window_of m) packet_id)
unfolding add_packet IsBounded
arrival_times-refines-window m id t reach h =
    let (le, none_yet) = arrival_times-IsBounded m reach in
    elim (Bool-cases m.has_received_packet) [
      | inl seen ↦ (ground (arith, seen, add_at-window m id t le seen h), erase_to-window m id)
      | inr unseen ↦ (
        ground (arith, unseen, none_yet unseen, first-window m id t unseen (none_yet unseen) h),
        erase_to-window m id,
      )
    ]
