-- ===== src/Rtcp/LastChunk.antt =====
-- src/rtc/rtp_rtcp/rtcp/packets/transport_feedback_last_chunk.cpp and the class LastChunk of transport_feedback.hpp: the
-- sizes of deltas that are encoded in one chunk of a transport feedback. A size is 0, 1 or 2.
pub mod Codec
pub mod Filled
pub mod Emitting
pub mod Laws
use naivertc.Base.{
  ℕ, zero, suc, ◌+◌, ◌-◌, ◌*◌, ◌%◌, ◌^◌, ◌≤◌, min, bit_and, bit_or, ltb, leb, ◌==◌, if◌then◌else◌,
  Bool, true, false, not, ◌&&◌, ◌||◌, List, [], ◌∷◌, ◌++◌, length, set, get_or, take, drop,
  replicate,
}
use naivertc.Base.Bits.{shl, shr}

abbrev pub max_run_length_capacity : ℕ
max_run_length_capacity = 0x1fff

abbrev pub max_one_bit_capacity : ℕ
max_one_bit_capacity = 14

abbrev pub max_two_bit_capacity : ℕ
max_two_bit_capacity = 7

abbrev pub max_vector_capacity : ℕ
max_vector_capacity = max_one_bit_capacity

abbrev pub large : ℕ
large = 2

-- `delta_sizes` is the array, of `max_vector_capacity` places.
pub record LastChunk : Type 0 where
  pub delta_sizes : List ℕ
  pub size : ℕ
  pub all_same : Bool
  pub has_large_delta : Bool

unfoldable pub clear : LastChunk → LastChunk
clear c = record c { size = 0; all_same = true; has_large_delta = false }

abbrev pub first_of : List ℕ → ℕ
first_of delta_sizes = get_or delta_sizes 0 0

unfoldable pub can_add : LastChunk → ℕ → Bool
can_add c delta_size =
    ltb c.size max_two_bit_capacity
    || (ltb c.size max_one_bit_capacity && not c.has_large_delta && not (delta_size == large))
    || (ltb c.size max_run_length_capacity && c.all_same && first_of c.delta_sizes == delta_size)

unfoldable pub add : LastChunk → ℕ → LastChunk
add c delta_size =
    let delta_sizes =
      if ltb c.size max_vector_capacity
      then set c.delta_sizes c.size delta_size
      else c.delta_sizes in
    record {
      delta_sizes = delta_sizes;
      size = c.size + 1;
      all_same = c.all_same && delta_size == first_of delta_sizes;
      has_large_delta = c.has_large_delta || delta_size == large;
    }

-- The loop that joins sizes of `w` bits to a chunk, with `left` places left.
unfoldable pub encode_loop : ℕ → ℕ → ℕ → List ℕ → ℕ
encode_loop w left chunk [] = chunk
encode_loop w zero chunk (d ∷ ds) = chunk
encode_loop w (suc left) chunk (d ∷ ds) = encode_loop w left (bit_or chunk (shl d (w * left))) ds

pub encode_one_bit : LastChunk → ℕ
unfolding encode_loop
encode_one_bit c = encode_loop 1 max_one_bit_capacity 0x8000 (take c.size c.delta_sizes)

pub encode_two_bit : LastChunk → ℕ → ℕ
unfolding encode_loop
encode_two_bit c size = encode_loop 2 max_two_bit_capacity 0xc000 (take size c.delta_sizes)

pub encode_run_length : LastChunk → ℕ
encode_run_length c = bit_or (shl (first_of c.delta_sizes) 13) (c.size % 2 ^ 16)

pub encode_last : LastChunk → ℕ
unfolding encode_run_length encode_two_bit encode_one_bit
encode_last c =
    if c.all_same
    then encode_run_length c
    else if leb c.size max_two_bit_capacity
    then encode_two_bit c c.size
    else encode_one_bit c

-- The loops that test the sizes left for being the same as the first, and for a large one.
unfoldable pub are_same : ℕ → List ℕ → Bool
are_same first [] = true
are_same first (d ∷ ds) = d == first && are_same first ds

unfoldable pub have_large : List ℕ → Bool
have_large [] = false
have_large (d ∷ ds) = d == large || have_large ds

-- The array with its first places written.
abbrev pub overwrite : List ℕ → List ℕ → List ℕ
overwrite written delta_sizes = written ++ drop (length written) delta_sizes

-- The chunk with its first `max_two_bit_capacity` sizes taken off.
unfoldable pub shift : LastChunk → LastChunk
shift c =
    let left = take (c.size - max_two_bit_capacity) (drop max_two_bit_capacity c.delta_sizes) in
    let delta_sizes = overwrite left c.delta_sizes in
    record {
      delta_sizes = delta_sizes;
      size = c.size - max_two_bit_capacity;
      all_same = are_same (first_of delta_sizes) left;
      has_large_delta = have_large left;
    }

unfoldable pub emit : LastChunk → ℕ × LastChunk
unfolding encode_run_length encode_two_bit encode_one_bit clear shift
emit c =
    if c.all_same
    then (encode_run_length c, clear c)
    else if c.size == max_one_bit_capacity
    then (encode_one_bit c, clear c)
    else (encode_two_bit c max_two_bit_capacity, shift c)

unfoldable pub append_to : LastChunk → List ℕ → List ℕ
append_to c deltas =
    deltas
    ++ (if c.all_same then replicate c.size (first_of c.delta_sizes) else take c.size c.delta_sizes)

-- The loop that takes `n` sizes of `w` bits from a chunk.
unfoldable pub decode_loop : ℕ → ℕ → ℕ → ℕ → ℕ → List ℕ
decode_loop w mask chunk left zero = []
decode_loop w mask chunk zero (suc n) = []
decode_loop w mask chunk (suc left) (suc n) =
    bit_and (shr chunk (w * left)) mask ∷ decode_loop w mask chunk left n

pub decode_one_bit : LastChunk → ℕ → ℕ → LastChunk
unfolding decode_loop
decode_one_bit c chunk max_size =
    let size = min max_one_bit_capacity max_size in
    record {
      delta_sizes = overwrite (decode_loop 1 0x01 chunk max_one_bit_capacity size) c.delta_sizes;
      size = size;
      all_same = false;
      has_large_delta = false;
    }

pub decode_two_bit : LastChunk → ℕ → ℕ → LastChunk
unfolding decode_loop
decode_two_bit c chunk max_size =
    let size = min max_two_bit_capacity max_size in
    record {
      delta_sizes = overwrite (decode_loop 2 0x03 chunk max_two_bit_capacity size) c.delta_sizes;
      size = size;
      all_same = false;
      has_large_delta = true;
    }

pub decode_run_length : LastChunk → ℕ → ℕ → LastChunk
decode_run_length c chunk max_count =
    let size = min (bit_and chunk 0x1fff) max_count in
    let delta_size = bit_and (shr chunk 13) 0x03 in
    record {
      delta_sizes = overwrite (replicate (min size max_vector_capacity) delta_size) c.delta_sizes;
      size = size;
      all_same = true;
      has_large_delta = leb large delta_size;
    }

pub decode : LastChunk → ℕ → ℕ → LastChunk
unfolding decode_run_length decode_one_bit decode_two_bit
decode c chunk max_size =
    if bit_and chunk 0x8000 == 0
    then decode_run_length c chunk max_size
    else if bit_and chunk 0x4000 == 0
    then decode_one_bit c chunk max_size
    else decode_two_bit c chunk max_size
