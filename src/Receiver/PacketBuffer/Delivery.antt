-- ===== src/Receiver/PacketBuffer/Delivery.antt =====
-- TryToAssembleFrames and InsertPacket without packets of H264: they end with a result, and every frame is whole.
use naivertc.Base.{
  ℕ, zero, suc, ◌-◌, ◌%◌, ◌^◌, ◌<◌, ◌≡◌, refl, sym, ap, ◌∙◌, subst, arith, true, false, Bool-cases,
  inl, inr, Option, none, some, List, [], ◌∷◌, ◌++◌, length, set, length-set,
}
use naivertc.Rtcp.Items.{All}
use naivertc.Receiver.PacketBuffer.Packets.{
  Packet, Frame, Slots, slot, next_num, prev_num, prev_index, is_last,
}
use naivertc.Receiver.PacketBuffer.Assembly.{
  walk, new_scan, is_continuous, continuous_at, continuous_with,
}
use naivertc.Receiver.PacketBuffer.State.{PacketBuffer}
use naivertc.Receiver.PacketBuffer.Rounds.{
  Step, bad, stopped, going, finish_frame, assemble_at, assemble_held, assemble_step, assemble_loop,
  try_to_assemble_frames,
}
use naivertc.Receiver.PacketBuffer.Held.{IsSize, slot-set_self, slot-in}
use naivertc.Receiver.PacketBuffer.Linked.{IsLinked, HasNoH264, walk-Walk}
use naivertc.Receiver.PacketBuffer.Taken.{Run}
use naivertc.Receiver.PacketBuffer.Marked.{
  IsWithin, IsWithin-refl, IsWithin-trans, HasPrevious, marked-IsPlaced, marked-IsLinked,
  marked-IsOpen, marked-HasNoH264, marked-IsWithin, marked-closed, marked-opened,
}
use naivertc.Receiver.PacketBuffer.Whole.{
  IsSound, IsWhole, IsWhole-IsWithin, IsEnding, IsRound, Gives, take_frame-IsRound,
}

All-IsWithin :
    (slots slots' : Slots) (frames : List Frame)
    → IsWithin slots slots'
    → All (IsWhole slots) frames
    → All (IsWhole slots') frames
All-IsWithin slots slots' [] within whole = tt
All-IsWithin slots slots' (f ∷ frames) within (w, whole) =
    (IsWhole-IsWithin slots slots' f within w, All-IsWithin slots slots' frames within whole)

IsRound-IsWithin :
    (slots slots' : Slots) (step : Step)
    → IsWithin slots slots'
    → IsRound slots step
    → IsRound slots' step
unfolding IsRound
IsRound-IsWithin slots slots' bad within round = round
IsRound-IsWithin slots slots' (stopped b) within (sound, sub) =
    (sound, IsWithin-trans b.packet_buffer slots slots' sub within)
IsRound-IsWithin slots slots' (going b frames) within (sound, sub, whole) = (
  sound,
  IsWithin-trans b.packet_buffer slots slots' sub within,
  All-IsWithin slots slots' frames within whole,
)

module _ (b : PacketBuffer) (s : ℕ) (p : Packet) (hs : s < 2 ^ 16) (sound : IsSound b.packet_buffer)
    (held : slot b.packet_buffer (s % length b.packet_buffer) ≡ some p) (num : p.seq_num ≡ s)
    (before : HasPrevious b.packet_buffer p (s % length b.packet_buffer)) where
  abbrev stored : Slots
  stored = b.packet_buffer

  abbrev marked_p : Packet
  marked_p = record p { continuous = true }

  abbrev place : ℕ
  place = s % length stored

  abbrev marked : Slots
  marked = set stored place (some marked_p)

  same_size : length marked ≡ length stored
  same_size = length-set stored place (some marked_p)

  marked_in : slot marked (s % length marked) ≡ some marked_p
  marked_in =
      ap (λ n. slot marked (s % n)) same_size
      ∙ slot-set_self stored place (some marked_p) (slot-in stored place p held)

  linked : IsLinked marked
  linked = marked-IsLinked stored place p held sound.placed sound.linked before

  pub ending-IsRound :
      is_last p ≡ true → IsRound stored (assemble_at b s p) × Gives s (assemble_at b s p)
  unfolding Gives assemble_at IsSize Run HasNoH264
  ending-IsRound finishes =
      let b' : PacketBuffer = record b { packet_buffer = marked } in
      let sized : IsSize (length marked) = subst IsSize (sym same_size) sound.sized in
      let flag = b.sps_pps_idr_is_h264_keyframe in
      let ending : IsEnding marked s marked_p = record {
        sized = sized;
        placed = marked-IsPlaced stored place p held sound.placed;
        linked = linked;
        plain = marked-HasNoH264 stored place p held sound.placed sound.plain;
        opened = marked-opened stored place p held sound.placed s num sound.opened;
        closed =
            marked-closed stored place p held sound.placed s hs refl num finishes sound.linked
              sound.opened;
        last_in = marked_in;
        last_num = num;
        finishes = finishes;
      } in
      let round : ℕ → Step = λ n.
        finish_frame b' false s
          (walk marked flag false p.timestamp (length stored - 1) (s % n) s 0 new_scan marked_p) in
      let walked =
        walk-Walk marked flag p.timestamp s marked_p sized linked marked_in num (length stored - 1)
          0 s 0 new_scan marked_p [] (omega (arith, sound.sized.0, same_size)) hs (omega arith)
          marked_in num refl refl refl in
      let (done, gives) =
        take_frame-IsRound b' s marked_p
          (walk marked flag false p.timestamp (length stored - 1) (s % length marked) s 0 new_scan
            marked_p)
          hs ending walked in
      let same : assemble_at b s p ≡ round (length stored) =
        ground (arith, finishes, sound.plain place p held) in
      let to_round = sym (same ∙ ap round (sym same_size)) in
      let done' : IsRound stored (round (length marked)) =
        IsRound-IsWithin marked stored (round (length marked))
          (marked-IsWithin stored place p held sound.placed) done in
      (subst (IsRound stored) to_round done', subst (Gives s) to_round gives)

  marking-IsRound : is_last p ≡ false → IsRound stored (assemble_at b s p)
  unfolding assemble_at IsRound IsSize
  marking-IsRound not_end =
      let b' : PacketBuffer = record b { packet_buffer = marked } in
      let same : assemble_at b s p ≡ going b' [] = ground (arith, not_end) in
      let sound' : IsSound marked = record {
        sized = subst IsSize (sym same_size) sound.sized;
        placed = marked-IsPlaced stored place p held sound.placed;
        linked = linked;
        opened = marked-IsOpen stored place p held sound.placed not_end sound.opened;
        plain = marked-HasNoH264 stored place p held sound.placed sound.plain;
      } in
      subst (IsRound stored) (sym same)
        (sound', marked-IsWithin stored place p held sound.placed, tt)

  assemble_at-IsRound : IsRound stored (assemble_at b s p)
  assemble_at-IsRound = elim (Bool-cases (is_last p)) [
    | inl finishes ↦ (ending-IsRound finishes).0
    | inr not_end ↦ marking-IsRound not_end
  ]

previous_of :
    (p : Packet) (o : Option Packet)
    → continuous_with p o ≡ true
    → (q : Packet) × (o ≡ some q) × (q.seq_num ≡ prev_num p.seq_num) × (q.continuous ≡ true)
unfolding continuous_with
previous_of p none e = absurd (ground (arith, e))
previous_of p (some q) e = (q, refl, ground (arith, e), ground (arith, e))

continuous_lem :
    (slots : Slots) (s : ℕ) (o : Option Packet)
    → continuous_at slots s (s % length slots) o ≡ true
    → (p : Packet) × (o ≡ some p) × (p.seq_num ≡ s) × HasPrevious slots p (s % length slots)
unfolding continuous_at
continuous_lem slots s none e = absurd (ground (arith, e))
continuous_lem slots s (some p) e = (
  p,
  refl,
  ground (arith, e),
  λ not_first.
      previous_of p (slot slots (prev_index slots (s % length slots)))
        (ground (arith, e, not_first)),
)

assemble_step-IsRound :
    (b : PacketBuffer) (s : ℕ)
    → s < 2 ^ 16
    → IsSound b.packet_buffer
    → IsRound b.packet_buffer (assemble_step b s)
unfolding assemble_step assemble_held is_continuous IsRound
assemble_step-IsRound b s hs sound =
    let slots = b.packet_buffer in
    let i = s % length slots in
    elim (Bool-cases (is_continuous slots s)) [
      | inl yes_cont ↦
          let (p, held, num, before) = continuous_lem slots s (slot slots i) yes_cont in
          let same : assemble_step b s ≡ assemble_at b s p = ground (arith, yes_cont, held) in
          subst (IsRound slots) (sym same) (assemble_at-IsRound b s p hs sound held num before)
      | inr not_cont ↦
          let same : assemble_step b s ≡ stopped b = ground (arith, not_cont) in
          subst (IsRound slots) (sym same) (sound, IsWithin-refl slots)
    ]

-- Where a packet is continuous and the end of a frame, the round gives that frame.
pub assemble_step-Gives :
    (b : PacketBuffer) (s : ℕ) (p : Packet)
    → s < 2 ^ 16
    → IsSound b.packet_buffer
    → is_continuous b.packet_buffer s ≡ true
    → slot b.packet_buffer (s % length b.packet_buffer) ≡ some p
    → is_last p ≡ true
    → Gives s (assemble_step b s)
unfolding assemble_step assemble_held is_continuous
assemble_step-Gives b s p hs sound is_cont p_in finishes =
    let slots = b.packet_buffer in
    let (q, held, num, before) = continuous_lem slots s (slot slots (s % length slots)) is_cont in
    let both : some p ≡ some q = sym p_in ∙ held in
    let e : p ≡ q = ground (arith, both) in
    let same : assemble_step b s ≡ assemble_at b s q = ground (arith, is_cont, held) in
    let finishes' : is_last q ≡ true = subst (λ (x : Packet). is_last x ≡ true) e finishes in
    subst (Gives s) (sym same) (ending-IsRound b s q hs sound held num before finishes').1

-- A result, with slots in order, and frames that are whole in the slots before.
unfoldable pub IsDelivery : Slots → Option (PacketBuffer × List Frame) → Type 0
IsDelivery slots result =
    (out : PacketBuffer × List Frame) × (result ≡ some out)
    × IsSound out.0.packet_buffer
    × IsWithin out.0.packet_buffer slots
    × All (IsWhole slots) out.1

All-append :
    (slots : Slots) (xs ys : List Frame)
    → All (IsWhole slots) xs
    → All (IsWhole slots) ys
    → All (IsWhole slots) (xs ++ ys)
All-append slots [] ys all all' = all'
All-append slots (x ∷ xs) ys (w, all) all' = (w, All-append slots xs ys all all')

-- From the outcome of a round, with what the later rounds do.
after_round :
    (left : ℕ) (slots : Slots) (b : PacketBuffer) (s : ℕ) (step : Step)
    → assemble_step b s ≡ step
    → IsRound slots step
    → ((b' : PacketBuffer)
        → IsSound b'.packet_buffer
        → IsDelivery b'.packet_buffer (assemble_loop left b' (next_num s)))
    → IsDelivery slots (assemble_loop (suc left) b s)
unfolding assemble_loop IsRound IsDelivery
after_round left slots b s bad e round later = absurd (omega arith)
after_round left slots b s (stopped b') e (sound, within) later =
    ((b', []), ground (arith, e), sound, within, tt)
after_round left slots b s (going b' frames) e (sound, within, whole) later =
    let (out, done, sound', within', whole') = later b' sound in
    (
      (out.0, frames ++ out.1),
      ground (arith, e, done),
      sound',
      IsWithin-trans out.0.packet_buffer b'.packet_buffer slots within' within,
      All-append slots frames out.1 whole (All-IsWithin b'.packet_buffer slots out.1 within whole'),
    )

assemble_loop-IsDelivery :
    (left : ℕ) (b : PacketBuffer) (s : ℕ)
    → s < 2 ^ 16
    → IsSound b.packet_buffer
    → IsDelivery b.packet_buffer (assemble_loop left b s)
unfolding assemble_loop IsDelivery
assemble_loop-IsDelivery zero b s hs sound =
    ((b, []), refl, sound, IsWithin-refl b.packet_buffer, tt)
assemble_loop-IsDelivery (suc left) b s hs sound =
    after_round left b.packet_buffer b s (assemble_step b s) refl
      (assemble_step-IsRound b s hs sound)
      (λ b' sound'. assemble_loop-IsDelivery left b' (next_num s) (omega arith) sound')

-- Where no packet is of H264 and the slots are in order, TryToAssembleFrames gives a result.
pub try_to_assemble-IsDelivery :
    (b : PacketBuffer) (s : ℕ)
    → s < 2 ^ 16
    → IsSound b.packet_buffer
    → IsDelivery b.packet_buffer (try_to_assemble_frames b s)
unfolding try_to_assemble_frames
try_to_assemble-IsDelivery b s hs sound =
    assemble_loop-IsDelivery (length b.packet_buffer) b s hs sound
