-- ===== src/Receiver/PacketBuffer/Taken.antt =====
-- A run of packets in the slots, by consecutive numbers, and what the loop that takes it out does.
use naivertc.Base.{
  ℕ, zero, suc, ◌+◌, ◌%◌, ◌^◌, ◌<◌, ◌≡◌, ◌≢◌, refl, sym, ap, ◌∙◌, subst, arith, ◌⊎◌, inl, inr,
  Option-cases, Option, none, some, List, [], ◌++◌, length, set, length-set, ℕ_discrete,
}
use mathlib.Core.List.{append-nil, append_assoc}
use naivertc.Receiver.PacketBuffer.Packets.{Packet, Frame, Slots, slot, next_num}
use naivertc.Receiver.PacketBuffer.Assembly.{
  take_packet, take_packets, begin_frame, end_frame, append_packet,
}
use naivertc.Receiver.PacketBuffer.Held.{slot-set_self, slot-set_ne, slot-in}

-- `count` packets from number `x` on, with their payloads one after the other.
unfoldable pub Run : Slots → ℕ → ℕ → List ℕ → Type 0
Run slots zero x bytes = bytes ≡ []
Run slots (suc count) x bytes =
    (p : Packet) × (slot slots (x % length slots) ≡ some p)
    × (p.seq_num ≡ x)
    × (rest : List ℕ) × Run slots count (next_num x) rest
    × (bytes ≡ p.video_payload ++ rest)

-- Number `y` is not one of `count` numbers from `x` on.
abbrev pub IsOutside : ℕ → ℕ → ℕ → Type 0
IsOutside count x y = (j : ℕ) → j < count → (x + j) % 2 ^ 16 ≢ y

pub Run-set :
    (slots : Slots) (count x y : ℕ) (bytes : List ℕ) (p : Packet) (v : Option Packet)
    → x < 2 ^ 16
    → slot slots (y % length slots) ≡ some p
    → p.seq_num ≡ y
    → IsOutside count x y
    → Run slots count x bytes
    → Run (set slots (y % length slots) v) count x bytes
unfolding Run
Run-set slots zero x y bytes p v hx held e outside run = run
Run-set slots (suc count) x y bytes p v hx held e outside (q, held', e', rest, run, whole) =
    let n = length slots in
    let same_size = length-set slots (y % n) v in
    let differ : y % n ≢ x % n = λ same.
      let both : some p ≡ some q = sym held ∙ ap (slot slots) same ∙ held' in
      outside 0 (omega arith) (ground (arith, both, e, e')) in
    let moved : slot (set slots (y % n) v) (x % length (set slots (y % n) v)) ≡ some q =
      ap (λ m. slot (set slots (y % n) v) (x % m)) same_size
      ∙ slot-set_ne slots (y % n) (x % n) v differ
      ∙ held' in
    let outside' : IsOutside count (next_num x) y =
      λ j lt same. outside (suc j) (omega arith) (omega (arith, same)) in
    (
      q,
      moved,
      e',
      rest,
      Run-set slots count (next_num x) y rest p v (omega arith) held e outside' run,
      whole,
    )

-- What is left in the slots, and what the frame has.
pub record Taken (slots : Slots) (start s count i : ℕ) (bytes : List ℕ) (f : Frame)
    (out : Slots × Frame) : Type 0 where
  pub size : length out.0 ≡ length slots
  pub bitstream : out.1.bitstream ≡ f.bitstream ++ bytes
  pub num_packets : out.1.num_packets ≡ f.num_packets
  pub starts : (f.seq_num_start ≡ start) ⊎ ((i ≡ start) × (0 < count)) → out.1.seq_num_start ≡ start
  pub ends :
      (f.seq_num_end ≡ s) ⊎ ((j : ℕ) × (j < count) × ((i + j) % 2 ^ 16 ≡ s)) → out.1.seq_num_end ≡ s
  pub kept : (k : ℕ) (q : Packet) → slot out.0 k ≡ some q → slot slots k ≡ some q
  pub left :
      (k : ℕ) (q : Packet)
      → slot slots k ≡ some q
      → (slot out.0 k ≡ some q) ⊎ ((j : ℕ) × (j < count) × (q.seq_num ≡ (i + j) % 2 ^ 16))
  pub gone : (j : ℕ) → j < count → slot out.0 ((i + j) % 2 ^ 16 % length slots) ≡ none

take_packet-fields :
    (start s i : ℕ) (p : Packet) (f : Frame)
    → p.seq_num ≡ i
    → let f' = take_packet start s i p f in
      (f'.bitstream ≡ f.bitstream ++ p.video_payload)
      × (f'.num_packets ≡ f.num_packets)
      × ((f.seq_num_start ≡ start) ⊎ (i ≡ start) → f'.seq_num_start ≡ start)
      × ((f.seq_num_end ≡ s) ⊎ (i ≡ s) → f'.seq_num_end ≡ s)
unfolding take_packet begin_frame end_frame append_packet
take_packet-fields start s i p f e =
    (ground arith, ground arith, λ h. ground (arith, h), λ h. ground (arith, h))

unfoldable pub IsTaken : Slots → ℕ → ℕ → ℕ → ℕ → List ℕ → Frame → Type 0
IsTaken slots start s count i bytes f =
    (out : Slots × Frame) × (take_packets start s count i slots f ≡ some out)
    × Taken slots start s count i bytes f out

first_or_later :
    (i j count y : ℕ)
    → i < 2 ^ 16
    → j < suc count
    → (i + j) % 2 ^ 16 ≡ y
    → (i ≡ y) ⊎ ((k : ℕ) × (k < count) × ((next_num i + k) % 2 ^ 16 ≡ y))
first_or_later i zero count y hi lt e = inl (omega arith)
first_or_later i (suc k) count y hi lt e = inr (k, omega arith, omega arith)

pub none-some_clash {ℓ κ} :
    {A : Type ℓ} {X : Type κ} {o : Option A} {a : A} → o ≡ none → o ≡ some a → X
none-some_clash e e' = absurd (ground (arith, sym e ∙ e'))

-- One packet more, before a run that is taken.
Taken-suc :
    (slots : Slots) (start s count i : ℕ) (rest : List ℕ) (f : Frame) (p : Packet)
    (out : Slots × Frame)
    → i < 2 ^ 16
    → count < 2 ^ 16
    → slot slots (i % length slots) ≡ some p
    → p.seq_num ≡ i
    → Taken
        (set slots (i % length slots) none)
        start
        s
        count
        (next_num i)
        rest
        (take_packet start s i p f)
        out
    → Taken slots start s (suc count) i (p.video_payload ++ rest) f out
Taken-suc slots start s count i rest f p out hi few held e taken =
    let n = length slots in
    let cleared = set slots (i % n) none in
    let f' = take_packet start s i p f in
    let same_size = length-set slots (i % n) none in
    let (bits, num, begins, finishes) = take_packet-fields start s i p f e in
    let here : slot cleared (i % n) ≡ none =
      slot-set_self slots (i % n) none (slot-in slots (i % n) p held) in
    record {
      size = taken.size ∙ same_size;
      bitstream =
          taken.bitstream
          ∙ ap (λ b. b ++ rest) bits
          ∙ append_assoc f.bitstream p.video_payload rest;
      num_packets = taken.num_packets ∙ num;
      starts =
          λ h. taken.starts (inl (begins (elim h [ inl old ↦ inl old | inr new ↦ inr new.0 ])));
      ends = λ h. taken.ends (elim h [
        | inl old ↦ inl (finishes (inl old))
        | inr (j, lt, at) ↦ elim (first_or_later i j count s hi lt at) [
          | inl now ↦ inl (finishes (inr now))
          | inr later ↦ inr later
        ]
      ]);
      kept = λ k q held'. elim (ℕ_discrete (i % n) k) [
        | yes same ↦ none-some_clash here (ap (slot cleared) same ∙ taken.kept k q held')
        | no differ ↦ sym (slot-set_ne slots (i % n) k none differ) ∙ taken.kept k q held'
      ];
      left = λ k q held'. elim (ℕ_discrete (i % n) k) [
        | yes same ↦
            let both : some p ≡ some q = sym held ∙ ap (slot slots) same ∙ held' in
            inr (0, omega arith, ground (arith, both, e))
        | no differ ↦ elim (taken.left k q (slot-set_ne slots (i % n) k none differ ∙ held')) [
          | inl stays ↦ inl stays
          | inr (j, lt, at) ↦ inr (suc j, omega arith, omega (arith, at))
        ]
      ];
      gone = λ j lt. elim (Option-cases (slot out.0 ((i + j) % 2 ^ 16 % n))) [
        | inl empty ↦ empty
        | inr (q, held') ↦ elim (first_or_later i j count ((i + j) % 2 ^ 16) hi lt refl) [
          | inl now ↦
              none-some_clash here
                (ap (λ y. slot cleared (y % n)) now ∙ taken.kept ((i + j) % 2 ^ 16 % n) q held')
          | inr (k, lt', at) ↦ none-some_clash (taken.gone k lt') (
              ap (λ y. slot out.0 (y % length cleared)) at
              ∙ ap (λ m. slot out.0 ((i + j) % 2 ^ 16 % m)) same_size
              ∙ held')
        ]
      ];
    }

pub take_packets-IsTaken :
    (slots : Slots) (start s count i : ℕ) (bytes : List ℕ) (f : Frame)
    → i < 2 ^ 16
    → count < 2 ^ 16
    → Run slots count i bytes
    → IsTaken slots start s count i bytes f
unfolding Run IsTaken take_packets
take_packets-IsTaken slots start s zero i bytes f hi few empty = (
  (slots, f),
  refl,
  record {
    size = refl;
    bitstream = rw (empty, append-nil);
    num_packets = refl;
    starts = λ h. elim h [ inl old ↦ old | inr (at, lt) ↦ absurd (omega arith) ];
    ends = λ h. elim h [ inl old ↦ old | inr (j, lt, at) ↦ absurd (omega arith) ];
    kept = λ k q held. held;
    left = λ k q held. inl held;
    gone = λ j lt. absurd (omega arith);
  },
)
take_packets-IsTaken slots start s (suc count) i bytes f hi few (p, held, e, rest, run, whole) =
    let n = length slots in
    let cleared = set slots (i % n) none in
    let run' : Run cleared count (next_num i) rest =
      Run-set slots count (next_num i) i rest p none (omega arith) held e
        (λ j lt same. omega (arith, same)) run in
    let (out, done, taken) =
      take_packets-IsTaken cleared start s count (next_num i) rest (take_packet start s i p f)
        (omega arith) (omega arith) run' in
    (
      out,
      ground (arith, held, e, done),
      subst (λ b. Taken slots start s (suc count) i b f out) (sym whole)
          (Taken-suc slots start s count i rest f p out hi (omega arith) held e taken),
    )
