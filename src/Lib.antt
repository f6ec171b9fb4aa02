-- ===== src/Lib.antt =====
-- naivertc: a real-time communication library in C++. This is a verification library of the parts that
-- count, order and exchange control packets. Paths are from the repository's root.
--
-- Parts and files.
--   Modulo (src/rtc/base/numerics/modulo_operator.hpp): Add, Subtract, ForwardDiff, ReverseDiff and MinDiff
--     at a modulus, and at the width `w` of an unsigned type.
--   WrapAround (src/rtc/rtp_rtcp/components/wrap_around_utils.hpp, wrap_around_checker.hpp): which of two
--     wrapping numbers is ahead, on Modulo.
--   Unwrapper (src/rtc/rtp_rtcp/components/num_unwrapper.hpp): NumberUnwrapper, which counts on over
--     wraps, on WrapAround. Its count is an integer without the bound of 64 bits.
--   Bytes (src/rtc/base/memory/byte_io_reader.hpp, byte_io_writer.hpp): integers in network order;
--     Bytes/Signed has the signed ones. Memory is a list of bytes, and a read past its end is `fault`.
--   Rtcp/Packet (src/rtc/rtp_rtcp/rtcp/rtcp_packet.cpp): Build, OnBufferFull, PackCommonHeader, with
--     their assertions: a maximum of 1500 bytes, which is the buffer of Build, a payload of at most 0xFFFF bytes and a
--     count of at most 31. A buffer is the list of the bytes written and the list of the packets given to the callback.
--   Rtcp/Header, Rtcp/Feedback (src/rtc/rtp_rtcp/rtcp/packets: common_header, psfb, rtpfb): what the parsers
--     share. Rtcp/Items has the loops over items of fixed size.
--   Rtcp/Nack, Rtcp/Pli, Rtcp/Fir, Rtcp/Remb, Rtcp/LossNotification, Rtcp/ReportBlock, Rtcp/Report,
--     Rtcp/Tmmb (the files of these names in src/rtc/rtp_rtcp/rtcp/packets; Tmmb has tmmb_item, tmmbr and
--     tmmbn, and Report has sender_report and receiver_report, with src/rtc/base/time/ntp_time.cpp): a record for
--     the state, `parse` for Parse,
--     `pack_into` for PackInto, `size_of` for PacketSize, and the setters. Rtcp/Mantissa has the loop that
--     makes a mantissa and an exponent of a bitrate.
--   Congestion/ArrivalTimes (src/rtc/congestion_control/receive_side/packet_arrival_time_map.cpp): the map
--     from ids to arrival times; View has the packets by their ids, Refinement the window that it stands for.
--   Congestion/IntervalBudget (src/rtc/congestion_control/components/interval_budget.cpp).
--   Receiver/NackModule (src/rtc/rtp_rtcp/rtp/receiver/nack_module_impl.cpp): the packets that are missing, on
--     WrapAround; Ordered has std::set and std::map under OlderThan, Age the distances behind the newest number.
--   Receiver/PacketBuffer (src/rtc/rtp_rtcp/rtp/receiver/video/jitter/packet_buffer.cpp): the packets of frames that are
--     not whole yet. Packets has the data and the slots, State Clear, ClearTo and UpdateMissingPackets, Expansion the
--     growing of the buffer, Assembly and Rounds TryToAssembleFrames, and the module itself InsertPacket and InsertPadding.
--     Held, Taken, Linked, Marked, Emptied, Whole, Delivery, Missing and Insertion lead to Receiving and Completion; Thinner, Kept, Filled
--     and Growing to Reaching.
--   Receiver/DecodedFrames (src/rtc/rtp_rtcp/rtp/receiver/video/jitter/decoded_frames_history.cpp).
--   Sender/Sequencer (src/rtc/rtp_rtcp/rtp/sender/rtp_packet_sequencer.cpp): the numbers of the packets sent. Step has one
--     call, Laws a run of them.
--   Sender/Packetizer (src/rtc/rtp_rtcp/rtp/packetizer/rtp_packetizer.cpp): SplitAboutEqually. Weights has the sizes that
--     it plans, Loop and Split what the loop makes of them.
--   BitReader (src/rtc/base/memory/bit_io_reader.hpp, bit_io_reader.cpp, bit_io.cpp): bits and Exp-Golomb codes.
--   Rtcp/LastChunk (src/rtc/rtp_rtcp/rtcp/packets/transport_feedback_last_chunk.cpp, and the class in
--     transport_feedback.hpp): Codec has the loops over the bits of a chunk, Filled what a chunk holds.
--   Rtcp/Safety joins the parsers behind the header. Base has names, lists, integers and bits that the
--     others share. Examples has concrete runs.
--
-- A packet's Parse works on what the header's Parse left of the buffer, and every PackInto starts with the
-- header and makes room through OnBufferFull. Parse gives `ok`, `rejected` for false, or `fault` for a read
-- outside; the object that a failing Parse leaves half written is not modelled. PackInto gives `packed`,
-- `failed` for false, `looping` for a loop that has not ended within its fuel, or `asserted` for a failed assertion of
-- Build or of the header.
--
-- The classes of the sender, the receiver and the congestion controller are records, and a method that changes the object gives
-- the new one. What an object reaches is an indexed data type, Reachable or History, with a constructor for each
-- operation. The clock is an argument, which reads the same during a call. Times and ids of 64 bits are integers.
--
-- Fuel. The loop that makes room has 2 rounds: the first flush empties the buffer, after which it fits or the
-- flush fails. NACK's loop has 2 + 2 * n rounds for n items: a round sends an item at least or flushes a buffer
-- that is not empty. The loop of the mantissa has 64 rounds for 64 bits, and the loop over a mask 16 for 16.
-- The loop over the missing numbers has 2 ^ 16 rounds, the loop that frees places one for each entry and one more.
-- The search for the size of a packet buffer has one round more than the largest size, the packetizer's loop three more
-- than there are bytes, the loop over leading zeros one more than there are bits. The other loops of the packet buffer
-- go over its slots or over a count of numbers.
--
-- Machine integers. Sizes of the packetizer wrap at 64 bits, an index of the history of decoded frames is narrowed to an
-- int, a REMB's bitrate is signed, and a budget's product of rate and time wraps; the theorems name the ranges that
-- keep clear of it. Counts of unwrapped numbers and ids of arrival times are integers without a bound.
--
-- Not modelled: logging; assertions, but for those of Build and the common header, those of the sequencer, which
-- lead to no result, as those in TryToAssembleFrames do; little-endian numbers; what rounds floating-point
-- numbers, as the conversions of NTP time and the ratio of a budget; the search trees inside std::set and
-- std::map; the packet of transport feedback around its chunks; the other RTCP packets; RTP packets beyond the
-- fields that the sequencer and the packet buffer use; the writer of bits; the frame buffer, bandwidth estimation,
-- pacing, peer connections and transports.
pub mod Base
pub mod BitReader
pub mod Modulo
pub mod WrapAround
pub mod Unwrapper
pub mod Bytes
pub mod Rtcp
pub mod Congestion
pub mod Receiver
pub mod Sender
pub mod Examples
