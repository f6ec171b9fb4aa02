-- ===== src/Receiver/PacketBuffer/Kept.antt =====
-- What TryToAssembleFrames leaves as it is, with packets of H264 too: the size of the buffer, the newest number, and the
-- slots of the packets that stay.
use naivertc.Base.{
  ℕ, zero, suc, ◌+◌, ◌%◌, ◌-◌, if-rule, ◌++◌, ◌^◌, ◌≡◌, ◌∙◌, refl, sym, subst, arith, ◌==◌, Bool,
  true, false, ◌&&◌, not, Option, none, some, List, [], length, set,
}
use mathlib.Core.Option
use naivertc.Receiver.NackModule.Ordered.{starts_by}
use naivertc.Receiver.PacketBuffer.Packets.{
  Packet, Frame, Slots, slot, new_frame, next_num, is_last, is_h264,
}
use naivertc.Receiver.PacketBuffer.Assembly.{
  Walked, whole, too_many_nalus, bad_walk, KeyframeScan, take_packets, set_frame_type, walk,
  new_scan, is_continuous,
}
use naivertc.Receiver.PacketBuffer.Thinner.{
  IsThinner, IsThinner-refl, IsThinner-trans, IsThinner-change, take_packets-IsThinner,
}
use naivertc.Receiver.PacketBuffer.State.{PacketBuffer, itself}
use naivertc.Receiver.PacketBuffer.Rounds.{
  Step, bad, stopped, going, take_frame, take_h264_frame, take_from_first, give_frame,
  assemble_held, finish_frame, assemble_at, assemble_step, assemble_loop, try_to_assemble_frames,
}

pub record Follows (b b' : PacketBuffer) : Type 0 where
  pub newest : b'.newest_inserted_seq_num ≡ b.newest_inserted_seq_num
  pub max_size : b'.max_packet_buffer_size ≡ b.max_packet_buffer_size
  pub thinner : IsThinner b'.packet_buffer b.packet_buffer

Follows-refl : (b : PacketBuffer) → Follows b b
Follows-refl b = record { newest = refl; max_size = refl; thinner = IsThinner-refl b.packet_buffer }

Follows-trans : (a b c : PacketBuffer) → Follows a b → Follows b c → Follows a c
Follows-trans a b c f g = record {
  newest = g.newest ∙ f.newest;
  max_size = g.max_size ∙ f.max_size;
  thinner = IsThinner-trans c.packet_buffer b.packet_buffer a.packet_buffer g.thinner f.thinner;
}

Keeps : PacketBuffer → Step → Type 0
Keeps b bad = Unit
Keeps b (stopped b') = Follows b b'
Keeps b (going b' frames) = Follows b b'

Keeps-trans : (a b : PacketBuffer) (step : Step) → Follows a b → Keeps b step → Keeps a step
unfolding Keeps
Keeps-trans a b bad f kept = tt
Keeps-trans a b (stopped c) f kept = Follows-trans a b c f kept
Keeps-trans a b (going c frames) f kept = Follows-trans a b c f kept

give_frame-Keeps :
    (b : PacketBuffer) (s size : ℕ) (o : Option (Slots × Frame))
    → ((out : Slots × Frame) → o ≡ some out → IsThinner out.0 b.packet_buffer)
    → Keeps b (give_frame b s size o)
unfolding Keeps give_frame
give_frame-Keeps b s size none thin = tt
give_frame-Keeps b s size (some (slots, f)) thin =
    if-rule (Keeps b) (length f.bitstream == size)
      (λ same. record { newest = refl; max_size = refl; thinner = thin (slots, f) refl })
      (λ differ. tt)

take_frame-Keeps : (b : PacketBuffer) (start s size : ℕ) → Keeps b (take_frame b start s size)
unfolding take_frame
take_frame-Keeps b start s size =
    let count = (next_num s + 2 ^ 16 - start) % 2 ^ 16 in
    let f = new_frame count in
    give_frame-Keeps b s size (take_packets start s count start b.packet_buffer f)
      (λ out e. take_packets-IsThinner start s count start b.packet_buffer f out e)

-- A packet changed, but for its number.
changed :
    (b : PacketBuffer) (i : ℕ) (p p' : Packet)
    → slot b.packet_buffer i ≡ some p
    → p'.seq_num ≡ p.seq_num
    → Follows b (record b { packet_buffer = set b.packet_buffer i (some p') })
changed b i p p' held num = record {
  newest = refl;
  max_size = refl;
  thinner = IsThinner-change b.packet_buffer i p p' held num;
}

set_frame_type-num :
    (scan : KeyframeScan) (p : Packet) → (set_frame_type scan p).seq_num ≡ p.seq_num
unfolding set_frame_type
set_frame_type-num scan p = ground arith

take_from_first-Keeps :
    (b : PacketBuffer) (start s size : ℕ) (scan : KeyframeScan) (o : Option Packet)
    → slot b.packet_buffer (start % length b.packet_buffer) ≡ o
    → Keeps b (take_from_first b start s size scan o)
unfolding Keeps take_from_first
take_from_first-Keeps b start s size scan none held = tt
take_from_first-Keeps b start s size scan (some first) held =
    let i = start % length b.packet_buffer in
    let b' : PacketBuffer = record b {
      packet_buffer = set b.packet_buffer i (some (set_frame_type scan first));
    } in
    let follows : Follows b b' =
      changed b i first (set_frame_type scan first) held (set_frame_type-num scan first) in
    if-rule (Keeps b) (not scan.is_h264_keyframe && starts_by itself start b.missing_packets)
      (λ gap. follows)
      (λ no_gap.
        Keeps-trans b b' (take_frame b' start s size) follows (take_frame-Keeps b' start s size))

finish_frame-Keeps :
    (b : PacketBuffer) (in_h264 : Bool) (s : ℕ) (walked : Walked)
    → Keeps b (finish_frame b in_h264 s walked)
unfolding Keeps finish_frame take_h264_frame
finish_frame-Keeps b true s (whole start size scan) =
    take_from_first-Keeps b start s size scan
      (slot b.packet_buffer (start % length b.packet_buffer)) refl
finish_frame-Keeps b false s (whole start size scan) = take_frame-Keeps b start s size
finish_frame-Keeps b in_h264 s too_many_nalus = Follows-refl b
finish_frame-Keeps b in_h264 s bad_walk = tt

assemble_held-Keeps :
    (b : PacketBuffer) (s : ℕ) (o : Option Packet)
    → slot b.packet_buffer (s % length b.packet_buffer) ≡ o
    → Keeps b (assemble_held b s o)
unfolding Keeps assemble_held assemble_at
assemble_held-Keeps b s none held = tt
assemble_held-Keeps b s (some p) held =
    let slots = b.packet_buffer in
    let i = s % length slots in
    let p' : Packet = record p { continuous = true } in
    let marked = set slots i (some p') in
    let b' : PacketBuffer = record b { packet_buffer = marked } in
    let follows : Follows b b' = changed b i p p' held refl in
    let walked =
      walk marked b.sps_pps_idr_is_h264_keyframe (is_h264 p) p.timestamp (length slots - 1) i s 0
        new_scan p' in
    if-rule (Keeps b) (is_last p)
      (λ finishes.
        Keeps-trans b b' (finish_frame b' (is_h264 p) s walked) follows
          (finish_frame-Keeps b' (is_h264 p) s walked))
      (λ not_end. follows)

assemble_step-Keeps : (b : PacketBuffer) (s : ℕ) → Keeps b (assemble_step b s)
unfolding Keeps assemble_step
assemble_step-Keeps b s =
    if-rule (Keeps b) (is_continuous b.packet_buffer s)
      (λ yes_cont. assemble_held-Keeps b s (slot b.packet_buffer (s % length b.packet_buffer)) refl)
      (λ not_cont. Follows-refl b)

-- The buffer in a result, if there is one.
unfoldable pub KeepsIn {ℓ} : {A : Type ℓ} → PacketBuffer → Option (PacketBuffer × A) → Type 0
KeepsIn b none = Unit
KeepsIn b (some (b', x)) = Follows b b'

map-KeepsIn :
    (b b' : PacketBuffer) (frames : List Frame) (o : Option (PacketBuffer × List Frame))
    → Follows b b'
    → KeepsIn b' o
    → KeepsIn b (Option.map (λ (c, more). (c, frames ++ more)) o)
unfolding KeepsIn
map-KeepsIn b b' frames none f h = tt
map-KeepsIn b b' frames (some (c, more)) f h = Follows-trans b b' c f h

after_round :
    (left : ℕ) (b : PacketBuffer) (s : ℕ) (step : Step)
    → assemble_step b s ≡ step
    → Keeps b step
    → ((b' : PacketBuffer) → KeepsIn b' (assemble_loop left b' (next_num s)))
    → KeepsIn b (assemble_loop (suc left) b s)
unfolding KeepsIn Keeps assemble_loop
after_round left b s bad e kept later =
    let done : assemble_loop (suc left) b s ≡ none = ground (arith, e) in
    subst (KeepsIn b) (sym done) tt
after_round left b s (stopped b') e kept later =
    let done : assemble_loop (suc left) b s ≡ some (b', []) = ground (arith, e) in
    subst (KeepsIn b) (sym done) kept
after_round left b s (going b' frames) e kept later =
    let rest = assemble_loop left b' (next_num s) in
    let done : assemble_loop (suc left) b s ≡ Option.map (λ (c, more). (c, frames ++ more)) rest =
      ground (arith, e) in
    subst (KeepsIn b) (sym done) (map-KeepsIn b b' frames rest kept (later b'))

assemble_loop-KeepsIn : (left : ℕ) (b : PacketBuffer) (s : ℕ) → KeepsIn b (assemble_loop left b s)
unfolding KeepsIn assemble_loop
assemble_loop-KeepsIn zero b s = Follows-refl b
assemble_loop-KeepsIn (suc left) b s =
    after_round left b s (assemble_step b s) refl (assemble_step-Keeps b s)
      (λ b'. assemble_loop-KeepsIn left b' (next_num s))

pub try_to_assemble-Follows :
    (b : PacketBuffer) (s : ℕ) (out : PacketBuffer × List Frame)
    → try_to_assemble_frames b s ≡ some out
    → Follows b out.0
unfolding try_to_assemble_frames KeepsIn
try_to_assemble-Follows b s out done =
    subst (KeepsIn b) done (assemble_loop-KeepsIn (length b.packet_buffer) b s)
