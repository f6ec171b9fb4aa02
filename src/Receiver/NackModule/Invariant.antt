-- ===== src/Receiver/NackModule/Invariant.antt =====
-- The state that the operations of the module keep, on every sequence of them.
use naivertc.Base.{
  ℕ, suc, ◌+◌, ◌%◌, ◌^◌, ◌≤◌, ◌<◌, ◌≡◌, ◌≢◌, refl, ap, sym, ◌∙◌, subst, arith, leb, ◌==◌, if-rule,
  Bool, true, false, not, List, [], ◌∷◌, length, Option, some,
}
use naivertc.Base.Int.{ℤ}
use mathlib.Core.Option
use naivertc.WrapAround.{ahead_of}
use naivertc.WrapAround.Order.{ahead_or_at_closed}
use naivertc.Receiver.NackModule.{
  NackInfo, NackModuleImpl, InsertResult, no_result, new_nack_module, seq_num_of, oldest_kept,
  max_packet_age, max_nack_retries, max_nack_packet_count, add_packets_to_nack, NackFilterType,
  by_seq_num, by_time, is_due, send_pass, nack_list_to_send_by, nack_list_up_to,
  nack_list_on_rtt_passed, clear_up_to, update_rtt, insert_packet, insert_first, insert_late,
  keep_keyframe, keep_recovered, ask_for_missing,
}
use naivertc.Receiver.NackModule.Ordered.{
  erase_to_lower_bound, erase, length-erase_to, length-erase,
}
use naivertc.Receiver.NackModule.Age.{
  behind, Aged, Aged-weaken, Aged-shift, Aged-drop_old, Aged-erase_to, Aged-erase, behind-next,
}
use naivertc.Receiver.NackModule.Places.{IsRoomy, IsListing, IsAdded, add_packets_lem}

-- The newest number is of 16 bits, the list is up to it, and it is empty before the first packet.
unfoldable pub IsWellFormed : NackModuleImpl → Type 0
IsWellFormed m =
    (m.newest_seq_num < 2 ^ 16)
    × IsListing m.newest_seq_num m
    × (m.initialized ≡ false → m.nack_list ≡ [])

Aged-send_pass :
    (due : NackInfo → Bool) (now : ℤ) (n hi lo : ℕ) (infos : List NackInfo)
    → Aged n hi lo infos
    → Aged n hi lo (send_pass due now infos).0 × (length (send_pass due now infos).0 ≤ length infos)
unfolding Aged send_pass
Aged-send_pass due now n hi lo [] aged = (tt, omega arith)
Aged-send_pass due now n hi lo (x ∷ xs) (h, r, from, below, rest) =
    let age = behind n x.seq_num in
    let (rest', le) = Aged-send_pass due now n age lo xs rest in
    let kept = (send_pass due now xs).0 in
    if-rule (λ (p : List NackInfo × List ℕ). Aged n hi lo p.0 × (length p.0 ≤ suc (length xs)))
      (due x)
      (λ sent.
        if-rule (λ (p : List NackInfo × List ℕ). Aged n hi lo p.0 × (length p.0 ≤ suc (length xs)))
          (leb max_nack_retries (x.retries + 1))
          (λ last. (Aged-weaken n age lo hi lo kept (omega arith) (omega arith) rest', omega arith))
          (λ again. ((h, ground (arith, again), from, below, rest'), omega arith)))
      (λ waits. ((h, r, from, below, rest'), omega arith))

send_by-IsListing :
    (m : NackModuleImpl) (type : NackFilterType) (now : ℤ) (seq_num n : ℕ)
    → IsListing n m
    → IsListing n (nack_list_to_send_by m type now seq_num).0
unfolding nack_list_to_send_by IsListing
send_by-IsListing m type now seq_num n (aged, le) =
    let (aged', le') =
      Aged-send_pass (is_due m.send_nack_delay_ms m.rtt_ms type now seq_num) now n
        (suc max_packet_age) 1 m.nack_list aged in
    (aged', omega arith)

-- A number that is not the newest and not behind it is ahead by at most half.
pub ahead-behind :
    (n s : ℕ)
    → n < 2 ^ 16
    → s < 2 ^ 16
    → n ≢ s
    → ahead_of 16 n s ≡ false
    → (behind s n ≤ 2 ^ 15) × (0 < behind s n)
unfolding ahead_of behind
ahead-behind n s hn hs ne e = ground (arith, ahead_or_at_closed 15 n s hn hs)

pub listing-IsRoomy :
    (m : NackModuleImpl) (s : ℕ)
    → m.newest_seq_num < 2 ^ 16
    → s < 2 ^ 16
    → m.newest_seq_num ≢ s
    → IsListing m.newest_seq_num m
    → behind s m.newest_seq_num ≤ 2 ^ 15
    → IsRoomy s
        (behind s ((m.newest_seq_num + 1) % 2 ^ 16))
        (erase_to_lower_bound seq_num_of (oldest_kept s) m.nack_list)
unfolding IsRoomy IsListing
listing-IsRoomy m s hn hs ne (aged, le) near few =
    let n = m.newest_seq_num in
    let j = behind s n in
    let next = behind-next s n hs hn ne in
    let shifted =
      Aged-shift n s j (suc max_packet_age) 1 m.nack_list hn hs refl (omega arith) aged in
    let kept =
      Aged-drop_old s (suc max_packet_age + j) (1 + j) m.nack_list hs (omega arith) shifted in
    Aged-weaken s (suc max_packet_age) (1 + j) (suc max_packet_age)
      (suc (behind s ((n + 1) % 2 ^ 16)))
      (erase_to_lower_bound seq_num_of (oldest_kept s) m.nack_list) (omega arith) (omega arith) kept

-- The call gives a result, and a module in order with it.
IsInserted : Option (NackModuleImpl × InsertResult) → Type 0
IsInserted result =
    (outcome : NackModuleImpl × InsertResult) × (result ≡ some outcome) × IsWellFormed outcome.0

gives :
    (outcome : NackModuleImpl × InsertResult) → IsWellFormed outcome.0 → IsInserted (some outcome)
unfolding IsInserted
gives outcome well = (outcome, refl, well)

asked-IsInserted :
    (m : NackModuleImpl) (now : ℤ) (s : ℕ) (result : Option (NackModuleImpl × Bool))
    → s < 2 ^ 16
    → m.initialized ≡ true
    → IsAdded s m result
    → IsInserted (Option.map (ask_for_missing now s) result)
unfolding IsAdded IsInserted IsListing IsWellFormed ask_for_missing nack_list_up_to
    nack_list_to_send_by
asked-IsInserted m now s result hs init (added, e, listing, same) = (
  ask_for_missing now s added,
  ap (Option.map (ask_for_missing now s)) e,
  (
    hs,
    send_by-IsListing (record added.0 { newest_seq_num = s }) by_seq_num now s s listing,
    λ e'. absurd (ground (arith, e', same, init)),
  ),
)

erase-nil : (s : ℕ) → erase seq_num_of s [] ≡ []
unfolding erase
erase-nil s = refl

late-IsWellFormed : (m : NackModuleImpl) (s : ℕ) → IsWellFormed m → IsWellFormed (insert_late m s).0
unfolding insert_late IsWellFormed IsListing
late-IsWellFormed m s (hn, (aged, le), none_yet) = (
  hn,
  (
    Aged-erase m.newest_seq_num (suc max_packet_age) 1 s m.nack_list aged,
    omega (arith, length-erase seq_num_of s m.nack_list),
  ),
  λ fresh. ap (erase seq_num_of s) (none_yet fresh) ∙ erase-nil s,
)

empty-IsListing : (m : NackModuleImpl) (s : ℕ) → m.nack_list ≡ [] → IsListing s m
unfolding IsListing Aged
empty-IsListing m s e =
    subst (λ infos. Aged s (suc max_packet_age) 1 infos × (length infos ≤ max_nack_packet_count))
      (sym e) (nothing s)
  where
    nothing : (s : ℕ) → Aged s (suc max_packet_age) 1 [] × (0 ≤ max_nack_packet_count)
    nothing s = (tt, omega arith)

insert_packet-IsInserted :
    (m : NackModuleImpl) (now : ℤ) (s : ℕ) (is_keyframe is_recovered : Bool)
    → s < 2 ^ 16
    → IsWellFormed m
    → IsInserted (insert_packet m now s is_keyframe is_recovered)
unfolding insert_packet insert_first IsWellFormed IsListing keep_keyframe keep_recovered
insert_packet-IsInserted m now s is_keyframe is_recovered hs well =
    let (hn, listing, none_yet) = well in
    let n = m.newest_seq_num in
    let start = (n + 1) % 2 ^ 16 in
    if-rule IsInserted (not m.initialized)
      (λ fresh.
        gives (insert_first m s is_keyframe, no_result)
          (
            hs,
            empty-IsListing m s (none_yet (ground (arith, fresh))),
            λ e. absurd (ground (arith, e)),
          ))
      (λ init.
        if-rule IsInserted (s == n) (λ same. gives (m, no_result) well)
          (λ differ.
            if-rule IsInserted (ahead_of 16 n s)
              (λ late. gives (insert_late m s) (late-IsWellFormed m s well))
              (λ newer.
                if-rule IsInserted is_recovered
                  (λ recovered.
                    gives (keep_recovered (keep_keyframe m s is_keyframe) s, no_result) well)
                  (λ lost.
                    let kept = keep_keyframe m s is_keyframe in
                    let ne : n ≢ s = ground (arith, differ) in
                    let near = (ahead-behind n s hn hs ne newer).0 in
                    asked-IsInserted kept now s (add_packets_to_nack kept now start s) hs
                      (ground (arith, init))
                      (add_packets_lem kept now start s (omega arith) hs
                        (listing-IsRoomy m s hn hs ne listing near))))))

-- What is reached from a fresh module by the operations.
pub data Reachable : NackModuleImpl → Type 0 where
  created : (send_nack_delay_ms : ℤ) → Reachable (new_nack_module send_nack_delay_ms)
  inserted :
      {m : NackModuleImpl} (now : ℤ) (seq_num : ℕ) (is_keyframe is_recovered : Bool)
      (outcome : NackModuleImpl × InsertResult)
      → Reachable m
      → seq_num < 2 ^ 16
      → insert_packet m now seq_num is_keyframe is_recovered ≡ some outcome
      → Reachable outcome.0
  cleared : {m : NackModuleImpl} (seq_num : ℕ) → Reachable m → Reachable (clear_up_to m seq_num)
  rtt_updated : {m : NackModuleImpl} (rtt_ms : ℤ) → Reachable m → Reachable (update_rtt m rtt_ms)
  rtt_passed :
      {m : NackModuleImpl} (now : ℤ) → Reachable m → Reachable (nack_list_on_rtt_passed m now).0

send_pass-nil :
    (due : NackInfo → Bool) (now : ℤ) {infos : List NackInfo}
    → infos ≡ []
    → (send_pass due now infos).0 ≡ []
unfolding send_pass
send_pass-nil due now e = ap (λ infos. (send_pass due now infos).0) e

erase_to-nil :
    (k : ℕ) {infos : List NackInfo} → infos ≡ [] → erase_to_lower_bound seq_num_of k infos ≡ []
unfolding erase_to_lower_bound
erase_to-nil k e = ap (erase_to_lower_bound seq_num_of k) e

inserted-IsWellFormed :
    (result : Option (NackModuleImpl × InsertResult)) (outcome : NackModuleImpl × InsertResult)
    → result ≡ some outcome
    → IsInserted result
    → IsWellFormed outcome.0
unfolding IsInserted
inserted-IsWellFormed result outcome e (given, e', well) =
    subst (λ (o : NackModuleImpl × InsertResult). IsWellFormed o.0)
      (Option.some-injective given outcome (sym e' ∙ e)) well

-- In every state that a NACK module reaches from its creation by packets with numbers of 16 bits,
-- clearing, updates of the RTT and passes for the RTT, the list has at most 1000 entries of
-- numbers of 16 bits, each with less than 10 retries, 1 to 10000 behind the newest number and in
-- strictly falling distance from it.
pub nack_module-IsWellFormed : (m : NackModuleImpl) → Reachable m → IsWellFormed m
unfolding IsWellFormed IsListing Aged clear_up_to update_rtt nack_list_on_rtt_passed
    nack_list_to_send_by
nack_module-IsWellFormed m (created delay) = (omega arith, (tt, omega arith), λ e. refl)
nack_module-IsWellFormed m
      (inserted {m = before} now s is_keyframe is_recovered outcome reach hs e) =
    inserted-IsWellFormed (insert_packet before now s is_keyframe is_recovered) outcome e (
      insert_packet-IsInserted before now s is_keyframe is_recovered hs
        (nack_module-IsWellFormed before reach))
nack_module-IsWellFormed m (cleared {m = before} s reach) =
    let (hn, (aged, le), none_yet) = nack_module-IsWellFormed before reach in
    (
      hn,
      (
        Aged-erase_to before.newest_seq_num (suc max_packet_age) 1 s before.nack_list aged,
        omega (arith, length-erase_to seq_num_of s before.nack_list),
      ),
      λ fresh. erase_to-nil s (none_yet fresh),
    )
nack_module-IsWellFormed m (rtt_updated {m = before} rtt_ms reach) =
    nack_module-IsWellFormed before reach
nack_module-IsWellFormed m (rtt_passed {m = before} now reach) =
    let (hn, listing, none_yet) = nack_module-IsWellFormed before reach in
    let due = is_due before.send_nack_delay_ms before.rtt_ms by_time now before.newest_seq_num in
    (
      hn,
      send_by-IsListing before by_time now before.newest_seq_num before.newest_seq_num listing,
      λ fresh. send_pass-nil due now (none_yet fresh),
    )

-- The first packet of a module that has none.
pub insert_first-Reachable :
    (m : NackModuleImpl) (now : ℤ) (seq_num : ℕ) (is_keyframe is_recovered : Bool)
    → m.initialized ≡ false
    → seq_num < 2 ^ 16
    → Reachable m
    → Reachable (insert_first m seq_num is_keyframe)
unfolding insert_packet
insert_first-Reachable m now seq_num is_keyframe is_recovered fresh h reach =
    inserted now seq_num is_keyframe is_recovered (insert_first m seq_num is_keyframe, no_result)
      reach h (ground (arith, fresh))
