-- ===== src/Receiver/NackModule/Places.antt =====
-- Freeing places and adding the missing numbers.
use naivertc.Base.{
  ℕ, suc, zero, ◌+◌, ◌%◌, ◌^◌, ◌≤◌, ◌<◌, ◌≡◌, refl, sym, subst, arith, ltb, if◌then◌else◌, if-rule,
  Bool, true, false, ◌&&◌, Bool-cases, inl, inr, List, [], ◌∷◌, length, dec_lt, ℕ_discrete, Option,
  some,
}
use naivertc.Base.Int.{ℤ}
use mathlib.Core.Option
use naivertc.Modulo.{forward_diff}
use naivertc.Receiver.NackModule.{
  NackInfo, NackModuleImpl, seq_num_of, oldest_kept, max_packet_age, max_nack_packet_count,
  new_nack_info, remove_packets_until_key_frame, free_places, add_missing, is_recovered_in,
  add_in_room, add_packets_to_nack,
}
use naivertc.Receiver.NackModule.Ordered.{erase_to_lower_bound, put, length-erase_to, length-put}
use naivertc.Receiver.NackModule.Age.{
  behind, Aged, Aged-weaken, Aged-put, behind-next, forward_diff-behind, Aged-erase_to,
}

module _ (P : List NackInfo → Type 0)
    (suffix : (k : ℕ) (xs : List NackInfo) → P xs → P (erase_to_lower_bound seq_num_of k xs)) where
  remove_packets_lem :
      (keyframes : List ℕ) (infos : List NackInfo)
      → P infos
      → P (remove_packets_until_key_frame keyframes infos).0
        × (length (remove_packets_until_key_frame keyframes infos).0 ≤ length infos)
        × ((remove_packets_until_key_frame keyframes infos).2 ≡ true
            → length (remove_packets_until_key_frame keyframes infos).0 < length infos)
  unfolding remove_packets_until_key_frame
  remove_packets_lem [] infos p = (p, omega arith, λ e. absurd (ground (arith, e)))
  remove_packets_lem (keyframe ∷ keyframes) infos p =
      let rest = erase_to_lower_bound seq_num_of keyframe infos in
      if-rule
        (λ (r : List NackInfo × List ℕ × Bool).
          P r.0 × (length r.0 ≤ length infos) × (r.2 ≡ true → length r.0 < length infos))
        (ltb (length rest) (length infos))
        (λ shorter. (
          suffix keyframe infos p,
          length-erase_to seq_num_of keyframe infos,
          λ e. ground (arith, shorter),
        ))
        (λ same. remove_packets_lem keyframes infos p)

  -- The loop ends within one pass for each entry and one more.
  pub free_places_lem :
      (fuel num : ℕ) (keyframes : List ℕ) (infos : List NackInfo)
      → length infos < fuel
      → P infos
      → (freed : List NackInfo × List ℕ) × (free_places fuel num keyframes infos ≡ some freed)
        × P freed.0
        × (length freed.0 ≤ length infos)
  unfolding free_places
  free_places_lem zero num keyframes infos le p = absurd (omega arith)
  free_places_lem (suc fuel) num keyframes infos le p =
      let passed = remove_packets_until_key_frame keyframes infos in
      let (p', le', lt) = remove_packets_lem keyframes infos p in
      elim (Bool-cases (passed.2 && ltb max_nack_packet_count (length passed.0 + num))) [
        | inl again ↦
            let (freed, e, q, le'') =
              free_places_lem fuel num passed.1 passed.0 (ground (arith, again, lt, le)) p' in
            (freed, ground (arith, again, e), q, omega arith)
        | inr done ↦ ((passed.0, passed.1), ground (arith, done), p', le')
      ]

-- The loop adds what is missing, from far to near.
pub add_missing_lem :
    (fuel : ℕ) (now : ℤ) (s n : ℕ) (recovered : List ℕ) (infos : List NackInfo)
    → s < 2 ^ 16
    → n < 2 ^ 16
    → behind n s < fuel
    → behind n s ≤ max_nack_packet_count
    → Aged n (suc max_packet_age) (suc (behind n s)) infos
    → (added : List NackInfo) × (add_missing fuel now s n recovered infos ≡ some added)
      × Aged n (suc max_packet_age) 1 added
      × (length added ≤ length infos + behind n s)
unfolding add_missing
add_missing_lem zero now s n recovered infos hs hn lt le aged = absurd (omega arith)
add_missing_lem (suc fuel) now s n recovered infos hs hn lt le aged =
    let found = is_recovered_in recovered s in
    let info = new_nack_info s now in
    let added = if found then infos else put seq_num_of info infos in
    elim (ℕ_discrete s n) [
      | yes same ↦ (
        infos,
        ground (arith, same),
        Aged-weaken n (suc max_packet_age) (suc (behind n s)) (suc max_packet_age) 1 infos
            (omega arith) (omega arith) aged,
        omega arith,
      )
      | no differ ↦
          let next = behind-next n s hn hs differ in
          let aged' =
            if-rule (Aged n (suc max_packet_age) (behind n s)) found
              (λ skipped.
                Aged-weaken n (suc max_packet_age) (suc (behind n s)) (suc max_packet_age)
                  (behind n s) infos (omega arith) (omega arith) aged)
              (λ missing.
                Aged-put n (suc max_packet_age) info infos hn hs (omega arith) (omega arith)
                  (omega arith) aged) in
          let (all, e, aged'', le'') =
            add_missing_lem fuel now ((s + 1) % 2 ^ 16) n recovered added (omega arith) hn
              (omega arith) (omega arith)
              (subst (λ k. Aged n (suc max_packet_age) k added) next aged') in
          (
            all,
            ground (arith, differ, e),
            aged'',
            ground (arith, le'', next, length-put seq_num_of info infos),
          )
    ]

-- A list with room for the missing numbers before `n`, of which there are `k`.
unfoldable pub IsRoomy : ℕ → ℕ → List NackInfo → Type 0
IsRoomy n k infos = k ≤ max_nack_packet_count → Aged n (suc max_packet_age) (suc k) infos

-- A module that lists what is up to `n`.
unfoldable pub IsListing : ℕ → NackModuleImpl → Type 0
IsListing n m =
    Aged n (suc max_packet_age) 1 m.nack_list × (length m.nack_list ≤ max_nack_packet_count)

unfoldable pub IsAdded : ℕ → NackModuleImpl → Option (NackModuleImpl × Bool) → Type 0
IsAdded n m result =
    (outcome : NackModuleImpl × Bool) × (result ≡ some outcome)
    × IsListing n outcome.0
    × (outcome.0.initialized ≡ m.initialized)

pub IsRoomy-erase_to :
    (n k bound : ℕ) (infos : List NackInfo)
    → IsRoomy n k infos
    → IsRoomy n k (erase_to_lower_bound seq_num_of bound infos)
unfolding IsRoomy
IsRoomy-erase_to n k bound infos roomy le =
    Aged-erase_to n (suc max_packet_age) (suc k) bound infos (roomy le)

add_in_room_lem :
    (m : NackModuleImpl) (now : ℤ) (s n : ℕ) (infos : List NackInfo) (keyframes : List ℕ)
    → s < 2 ^ 16
    → n < 2 ^ 16
    → IsRoomy n (behind n s) infos
    → IsAdded n m (add_in_room m now s n (infos, keyframes))
unfolding add_in_room IsRoomy IsListing IsAdded Aged
add_in_room_lem m now s n infos keyframes hs hn roomy =
    let (diff, in_range) = forward_diff-behind n s hn hs in
    elim (dec_lt max_nack_packet_count (length infos + forward_diff 16 s n)) [
      | yes full ↦ (
        (record m { nack_list = []; keyframe_list = keyframes }, false),
        ground (arith, full),
        (tt, omega arith),
        refl,
      )
      | no room ↦
          let (added, e, aged, le) =
            add_missing_lem (2 ^ 16) now s n m.recovered_list infos hs hn (omega arith)
              (omega arith) (roomy (omega arith)) in
          (
            (record m { nack_list = added; keyframe_list = keyframes }, true),
            ground (arith, room, e),
            (aged, omega arith),
            refl,
          )
    ]

pub add_packets_lem :
    (m : NackModuleImpl) (now : ℤ) (s n : ℕ)
    → s < 2 ^ 16
    → n < 2 ^ 16
    → IsRoomy n (behind n s) (erase_to_lower_bound seq_num_of (oldest_kept n) m.nack_list)
    → IsAdded n m (add_packets_to_nack m now s n)
unfolding add_packets_to_nack Option.bind
add_packets_lem m now s n hs hn roomy =
    let infos = erase_to_lower_bound seq_num_of (oldest_kept n) m.nack_list in
    let num = forward_diff 16 s n in
    let (freed, e, roomy', le) =
      free_places_lem (IsRoomy n (behind n s)) (IsRoomy-erase_to n (behind n s))
        (suc (length infos)) num m.keyframe_list infos (omega arith) roomy in
    if-rule (IsAdded n m) (ltb max_nack_packet_count (length infos + num))
      (λ full.
        subst (λ r. IsAdded n m (Option.bind r (add_in_room m now s n))) (sym e)
          (add_in_room_lem m now s n freed.0 freed.1 hs hn roomy'))
      (λ room. add_in_room_lem m now s n infos m.keyframe_list hs hn roomy)
