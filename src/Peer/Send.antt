-- ===== src/Peer/Send.antt =====
-- impl/peer.hpp: the check of outgoing frames, on frames that impl/protocol.hpp has made.
use cpp_unix_domain_stream.Prelude.{
  ℕ, ◌+◌, ◌^◌, ◌<◌, ◌≤◌, ◌≡◌, refl, List, [], ◌∷◌, ◌++◌, ltb, leb, false, if◌then◌else◌, length,
  get_or, arith,
}
use cpp_unix_domain_stream.Protocol.{encode_uint32, encode_uint64, message_type, u32}
use cpp_unix_domain_stream.Protocol.RoundTrip.{take-encode_uint32, decode_uint32-encode_uint32}
use cpp_unix_domain_stream.Peer.Write.{valid_outgoing_frame, valid_body_size}
use cpp_unix_domain_stream.Peer.Messages.{
  Message, beat, user, asks, answers, frame, frame_body, length-encode_uint64,
}

abbrev pub payload_size : Message → ℕ
payload_size beat = 0
payload_size (user bytes) = length bytes
payload_size (asks id bytes) = length bytes
payload_size (answers id bytes) = length bytes

length-encode_uint32 :
    (value : ℕ) (rest : List ℕ) → length (encode_uint32 value ++ rest) ≡ 4 + length rest
unfolding encode_uint32
length-encode_uint32 value rest = omega arith

get_or-encode_uint32 :
    (value : ℕ) (rest : List ℕ) → get_or (encode_uint32 value ++ rest) 4 0 ≡ get_or rest 0 0
unfolding encode_uint32
get_or-encode_uint32 value rest = refl

valid_frame :
    (max : ℕ) (b : List ℕ)
    → 1 ≤ length b
    → valid_outgoing_frame max (encode_uint32 (u32 (length b)) ++ b) ≡ (
        if ltb (length b) (2 ^ 32)
        then valid_body_size (message_type (get_or b 0 0)) max (length b)
        else false)
unfolding valid_outgoing_frame
valid_frame max b h =
    rw
      (
        take-encode_uint32 (u32 (length b)) b,
        length-encode_uint32 (u32 (length b)) b,
        get_or-encode_uint32 (u32 (length b)) b,
        decode_uint32-encode_uint32 (u32 (length b)) (omega arith),
      )
      (ground arith)

-- With a limit below 2^32 - 9, the frame of a message, of any size, is accepted for sending exactly
-- when the payload is within the limit.
pub frame_valid :
    (max : ℕ) (m : Message)
    → max + 9 < 2 ^ 32
    → valid_outgoing_frame max (frame m) ≡ leb (payload_size m) max
unfolding message_type
frame_valid max beat h = rw (frame_body beat, valid_frame max (0 ∷ []) (omega arith)) (ground arith)
frame_valid max (user bytes) h =
    rw (frame_body (user bytes), valid_frame max (1 ∷ bytes) (omega arith)) (ground arith)
frame_valid max (asks id bytes) h =
    let e = length-encode_uint64 id bytes in
    rw (frame_body (asks id bytes), valid_frame max (4 ∷ (encode_uint64 id ++ bytes)) (omega arith))
      (ground arith)
frame_valid max (answers id bytes) h =
    let e = length-encode_uint64 id bytes in
    rw
      (
        frame_body (answers id bytes),
        valid_frame max (5 ∷ (encode_uint64 id ++ bytes)) (omega arith),
      )
      (ground arith)
