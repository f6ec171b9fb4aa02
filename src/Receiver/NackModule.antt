-- ===== src/Receiver/NackModule.antt =====
-- src/rtc/rtp_rtcp/rtp/receiver/nack_module_impl.hpp and nack_module_impl.cpp: which numbers are missing, and when to
-- ask for them. `now` is what the clock reads during a call; `none` is a loop that has not ended within its fuel.
pub mod Ordered
pub mod Age
pub mod Places
pub mod Invariant
pub mod Missing
pub mod Asking
use naivertc.Base.{
  is_some, ℕ, suc, zero, ◌+◌, ◌-◌, ◌%◌, ◌^◌, ltb, leb, ◌==◌, if◌then◌else◌, Bool, true, false, not,
  ◌&&◌, ◌||◌, Option, none, some, List, [], ◌∷◌, length,
}
use naivertc.Base.Int.{ℤ, pos, negsuc, ◌-ℤ◌, ltb_ℤ}
use mathlib.Core.Option
use naivertc.Modulo.{forward_diff}
use naivertc.WrapAround.{ahead_of, ahead_or_at}
use Ordered.{erase_to_lower_bound, find, erase, put}

abbrev pub max_packet_age : ℕ
max_packet_age = 10000

abbrev pub max_nack_packet_count : ℕ
max_nack_packet_count = 1000

abbrev pub default_rtt_ms : ℤ
default_rtt_ms = pos 100

abbrev pub max_nack_retries : ℕ
max_nack_retries = 10

pub record NackInfo : Type 0 where
  pub seq_num : ℕ
  pub created_time : ℤ
  pub sent_time : Option ℤ
  pub retries : ℕ

abbrev pub new_nack_info : ℕ → ℤ → NackInfo
new_nack_info seq_num created_time = record {
  seq_num = seq_num;
  created_time = created_time;
  sent_time = none;
  retries = 0;
}

pub record InsertResult : Type 0 where
  pub nacks_sent_for_seq_num : ℕ
  pub keyframe_requested : Bool
  pub nack_list_to_send : List ℕ

abbrev pub no_result : InsertResult
no_result = record {
  nacks_sent_for_seq_num = 0;
  keyframe_requested = false;
  nack_list_to_send = [];
}

-- The key of an entry of `nack_list` is its number.
pub record NackModuleImpl : Type 0 where
  pub send_nack_delay_ms : ℤ
  pub initialized : Bool
  pub rtt_ms : ℤ
  pub newest_seq_num : ℕ
  pub keyframe_list : List ℕ
  pub recovered_list : List ℕ
  pub nack_list : List NackInfo

abbrev pub new_nack_module : ℤ → NackModuleImpl
new_nack_module send_nack_delay_ms = record {
  send_nack_delay_ms = send_nack_delay_ms;
  initialized = false;
  rtt_ms = default_rtt_ms;
  newest_seq_num = 0;
  keyframe_list = [];
  recovered_list = [];
  nack_list = [];
}

abbrev pub seq_num_of : NackInfo → ℕ
seq_num_of info = info.seq_num

abbrev itself : ℕ → ℕ
itself n = n

pub clear_up_to : NackModuleImpl → ℕ → NackModuleImpl
clear_up_to m seq_num = record m {
  nack_list = erase_to_lower_bound seq_num_of seq_num m.nack_list;
  keyframe_list = erase_to_lower_bound itself seq_num m.keyframe_list;
  recovered_list = erase_to_lower_bound itself seq_num m.recovered_list;
}

pub update_rtt : NackModuleImpl → ℤ → NackModuleImpl
update_rtt m rtt_ms = record m { rtt_ms = rtt_ms }

-- `seq_num - kMaxPacketAge` at 64 bits, as a number of 16.
abbrev pub oldest_kept : ℕ → ℕ
oldest_kept seq_num = (seq_num + 2 ^ 64 - max_packet_age) % 2 ^ 64 % 2 ^ 16

-- The pass over the keyframes; with the entries and the keyframes that are left.
pub remove_packets_until_key_frame : List ℕ → List NackInfo → List NackInfo × List ℕ × Bool
remove_packets_until_key_frame [] infos = (infos, [], false)
remove_packets_until_key_frame (keyframe ∷ keyframes) infos =
    let rest = erase_to_lower_bound seq_num_of keyframe infos in
    if ltb (length rest) (length infos)
    then (rest, keyframe ∷ keyframes, true)
    else remove_packets_until_key_frame keyframes infos

-- The loop that frees places, while a pass removes packets and there are too many.
pub free_places : ℕ → ℕ → List ℕ → List NackInfo → Option (List NackInfo × List ℕ)
unfolding remove_packets_until_key_frame
free_places zero num_new_nacks keyframes infos = none
free_places (suc fuel) num_new_nacks keyframes infos =
    let (rest, keyframes_left, removed) = remove_packets_until_key_frame keyframes infos in
    let again = free_places fuel num_new_nacks keyframes_left rest in
    if removed && ltb max_nack_packet_count (length rest + num_new_nacks)
    then again
    else some (rest, keyframes_left)

-- Whether the list of the recovered packets has a number.
unfoldable pub is_recovered_in : List ℕ → ℕ → Bool
is_recovered_in recovered seq_num = is_some (find itself seq_num recovered)

-- The loop over the missing numbers.
pub add_missing : ℕ → ℤ → ℕ → ℕ → List ℕ → List NackInfo → Option (List NackInfo)
add_missing zero now seq_num seq_num_end recovered infos = none
add_missing (suc fuel) now seq_num seq_num_end recovered infos =
    let found = is_recovered_in recovered seq_num in
    let added = if found then infos else put seq_num_of (new_nack_info seq_num now) infos in
    let rest = add_missing fuel now ((seq_num + 1) % 2 ^ 16) seq_num_end recovered added in
    if seq_num == seq_num_end then some infos else rest

-- The numbers from `seq_num_start` to before `seq_num_end` are added, when there is room.
pub add_in_room :
    NackModuleImpl → ℤ → ℕ → ℕ → List NackInfo × List ℕ → Option (NackModuleImpl × Bool)
add_in_room m now seq_num_start seq_num_end (infos, keyframes) =
    let num_new_nacks = forward_diff 16 seq_num_start seq_num_end in
    if ltb max_nack_packet_count (length infos + num_new_nacks)
    then some (record m { nack_list = []; keyframe_list = keyframes }, false)
    else Option.map (λ added. (record m { nack_list = added; keyframe_list = keyframes }, true))
        (add_missing (2 ^ 16) now seq_num_start seq_num_end m.recovered_list infos)

-- With false where the list is full and was cleared.
pub add_packets_to_nack : NackModuleImpl → ℤ → ℕ → ℕ → Option (NackModuleImpl × Bool)
unfolding add_in_room free_places
add_packets_to_nack m now seq_num_start seq_num_end =
    let infos = erase_to_lower_bound seq_num_of (oldest_kept seq_num_end) m.nack_list in
    let num_new_nacks = forward_diff 16 seq_num_start seq_num_end in
    if ltb max_nack_packet_count (length infos + num_new_nacks)
    then Option.bind (free_places (suc (length infos)) num_new_nacks m.keyframe_list infos)
        (add_in_room m now seq_num_start seq_num_end)
    else add_in_room m now seq_num_start seq_num_end (infos, m.keyframe_list)

pub data NackFilterType : Type 0 where
  by_seq_num : NackFilterType
  by_time : NackFilterType

nack_on_rtt_passed : NackFilterType → ℤ → ℤ → Option ℤ → Bool
nack_on_rtt_passed by_time now resend_delay (some sent_time) =
    not (ltb_ℤ (now -ℤ sent_time) resend_delay)
nack_on_rtt_passed by_time now resend_delay none = false
nack_on_rtt_passed by_seq_num now resend_delay sent_time = false

nack_on_seq_num_passed : NackFilterType → ℕ → ℕ → Option ℤ → Bool
nack_on_seq_num_passed by_seq_num seq_num info_seq_num none = ahead_or_at 16 seq_num info_seq_num
nack_on_seq_num_passed by_seq_num seq_num info_seq_num (some sent_time) = false
nack_on_seq_num_passed by_time seq_num info_seq_num sent_time = false

-- Whether an entry is to be sent.
pub is_due : ℤ → ℤ → NackFilterType → ℤ → ℕ → NackInfo → Bool
unfolding nack_on_rtt_passed nack_on_seq_num_passed
is_due send_nack_delay_ms rtt_ms type now seq_num info =
    not (ltb_ℤ (now -ℤ info.created_time) send_nack_delay_ms)
    && (nack_on_rtt_passed type now rtt_ms info.sent_time
        || nack_on_seq_num_passed type seq_num info.seq_num info.sent_time)

abbrev pub sent_once_more : ℤ → NackInfo → NackInfo
sent_once_more now info = record info { retries = info.retries + 1; sent_time = some now }

-- The pass over the list: the entries that stay, and the numbers to send.
pub send_pass : (NackInfo → Bool) → ℤ → List NackInfo → List NackInfo × List ℕ
send_pass due now [] = ([], [])
send_pass due now (info ∷ infos) =
    let (kept, sent) = send_pass due now infos in
    if due info
    then (if leb max_nack_retries (info.retries + 1)
        then (kept, info.seq_num ∷ sent)
        else (sent_once_more now info ∷ kept, info.seq_num ∷ sent))
    else (info ∷ kept, sent)

pub nack_list_to_send_by : NackModuleImpl → NackFilterType → ℤ → ℕ → NackModuleImpl × List ℕ
unfolding send_pass
nack_list_to_send_by m type now seq_num =
    let (kept, sent) =
      send_pass (is_due m.send_nack_delay_ms m.rtt_ms type now seq_num) now m.nack_list in
    (record m { nack_list = kept }, sent)

pub nack_list_up_to : NackModuleImpl → ℤ → ℕ → NackModuleImpl × List ℕ
unfolding nack_list_to_send_by
nack_list_up_to m now seq_num = nack_list_to_send_by m by_seq_num now seq_num

pub nack_list_on_rtt_passed : NackModuleImpl → ℤ → NackModuleImpl × List ℕ
unfolding nack_list_to_send_by
nack_list_on_rtt_passed m now = nack_list_to_send_by m by_time now m.newest_seq_num

pub retries_of : Option NackInfo → ℕ
retries_of none = 0
retries_of (some info) = info.retries

-- The first packet.
unfoldable pub insert_first : NackModuleImpl → ℕ → Bool → NackModuleImpl
insert_first m seq_num is_keyframe = record m {
  newest_seq_num = seq_num;
  keyframe_list = if is_keyframe then put itself seq_num m.keyframe_list else m.keyframe_list;
  initialized = true;
}

-- A packet that is not newer than the newest was asked for, or came late.
pub insert_late : NackModuleImpl → ℕ → NackModuleImpl × InsertResult
unfolding retries_of
insert_late m seq_num = (
  record m { nack_list = erase seq_num_of seq_num m.nack_list },
  record no_result { nacks_sent_for_seq_num = retries_of (find seq_num_of seq_num m.nack_list) },
)

pub keep_keyframe : NackModuleImpl → ℕ → Bool → NackModuleImpl
keep_keyframe m seq_num is_keyframe =
    let keyframes = if is_keyframe then put itself seq_num m.keyframe_list else m.keyframe_list in
    record m { keyframe_list = erase_to_lower_bound itself (oldest_kept seq_num) keyframes }

pub keep_recovered : NackModuleImpl → ℕ → NackModuleImpl
keep_recovered m seq_num = record m {
  recovered_list =
      erase_to_lower_bound itself (oldest_kept seq_num) (put itself seq_num m.recovered_list);
}

-- The end of InsertPacket, with what adding the missing packets gave.
pub ask_for_missing : ℤ → ℕ → NackModuleImpl × Bool → NackModuleImpl × InsertResult
unfolding nack_list_up_to
ask_for_missing now seq_num (m, added) =
    let (asked, to_send) = nack_list_up_to (record m { newest_seq_num = seq_num }) now seq_num in
    (asked, record no_result { keyframe_requested = not added; nack_list_to_send = to_send })

pub insert_packet : NackModuleImpl → ℤ → ℕ → Bool → Bool → Option (NackModuleImpl × InsertResult)
unfolding insert_first insert_late keep_keyframe keep_recovered ask_for_missing add_packets_to_nack
insert_packet m now seq_num is_keyframe is_recovered =
    if not m.initialized
    then some (insert_first m seq_num is_keyframe, no_result)
    else if seq_num == m.newest_seq_num
    then some (m, no_result)
    else if ahead_of 16 m.newest_seq_num seq_num
    then some (insert_late m seq_num)
    else (let kept = keep_keyframe m seq_num is_keyframe in
        if is_recovered
        then some (keep_recovered kept seq_num, no_result)
        else Option.map (ask_for_missing now seq_num)
            (add_packets_to_nack kept now ((m.newest_seq_num + 1) % 2 ^ 16) seq_num))
