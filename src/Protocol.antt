-- ===== src/Protocol.antt =====
-- impl/protocol.hpp: the frame format. A frame is a 4-byte big-endian body size, a type byte and the
-- payload; a request or response payload starts with an 8-byte big-endian id.
-- A byte vector is a list of numbers. A shift right is a division by a power of two, `& 0xff` a
-- remainder, and `|` of shifted bytes, which share no bit, a sum.
pub mod RoundTrip
use cpp_unix_domain_stream.Prelude.{
  ℕ, ◌+◌, ◌*◌, ◌/◌, ◌%◌, ◌^◌, Bool, true, false, ◌&&◌, Option, none, some, List, [], ◌∷◌, ◌++◌, ltb,
  ◌==◌, if◌then◌else◌, length, get_or, take,
}

pub data MessageType : Type 0 where
  heartbeat user_data health_check health_check_response request response : MessageType

-- `std::to_underlying(type)`
abbrev pub to_underlying : MessageType → ℕ
to_underlying heartbeat = 0
to_underlying user_data = 1
to_underlying health_check = 2
to_underlying health_check_response = 3
to_underlying request = 4
to_underlying response = 5

-- `static_cast<message_type>(byte)`; `none` is a value that no enumerator has.
unfoldable pub message_type : ℕ → Option MessageType
message_type byte =
    if byte == 0
    then some heartbeat
    else if byte == 1
    then some user_data
    else if byte == 2
    then some health_check
    else if byte == 3
    then some health_check_response
    else if byte == 4
    then some request
    else if byte == 5
    then some response
    else none

-- `size_t` arithmetic.
abbrev pub u64 : ℕ → ℕ
u64 n = n % 2 ^ 64

abbrev pub header_size : ℕ
header_size = 4

abbrev pub type_size : ℕ
type_size = 1

abbrev pub request_id_size : ℕ
request_id_size = 8

unfoldable pub encode_uint32 : ℕ → List ℕ
encode_uint32 value =
    (value / 2 ^ 24 % 256) ∷ (value / 2 ^ 16 % 256) ∷ (value / 2 ^ 8 % 256) ∷ (value % 256) ∷ []

unfoldable pub decode_uint32 : List ℕ → ℕ
decode_uint32 input =
    get_or input 0 0 * 2 ^ 24
    + get_or input 1 0 * 2 ^ 16
    + get_or input 2 0 * 2 ^ 8
    + get_or input 3 0

unfoldable pub encode_uint64 : ℕ → List ℕ
encode_uint64 value =
    (value / 2 ^ 56 % 256)
    ∷ (value / 2 ^ 48 % 256)
    ∷ (value / 2 ^ 40 % 256)
    ∷ (value / 2 ^ 32 % 256)
    ∷ (value / 2 ^ 24 % 256)
    ∷ (value / 2 ^ 16 % 256)
    ∷ (value / 2 ^ 8 % 256)
    ∷ (value % 256)
    ∷ []

-- Reads 8 bytes from `offset` on. Its callers have checked that they are there.
unfoldable pub decode_uint64 : List ℕ → ℕ → ℕ
decode_uint64 input offset =
    get_or input offset 0 * 2 ^ 56
    + get_or input (offset + 1) 0 * 2 ^ 48
    + get_or input (offset + 2) 0 * 2 ^ 40
    + get_or input (offset + 3) 0 * 2 ^ 32
    + get_or input (offset + 4) 0 * 2 ^ 24
    + get_or input (offset + 5) 0 * 2 ^ 16
    + get_or input (offset + 6) 0 * 2 ^ 8
    + get_or input (offset + 7) 0

-- `static_cast<uint32_t>`
abbrev pub u32 : ℕ → ℕ
u32 n = n % 2 ^ 32

-- `if (data && size > 0) frame.insert(frame.end(), data, data + size)`; `none` is a null pointer.
abbrev pub payload : Option (List ℕ) → ℕ → List ℕ
payload none size = []
payload (some bytes) size = if ltb 0 size then take size bytes else []

unfoldable pub make_frame : MessageType → Option (List ℕ) → ℕ → List ℕ
make_frame type source size =
    let body_size = type_size + size in
    encode_uint32 (u32 body_size) ++ (to_underlying type ∷ payload source size)

unfoldable pub make_user_data_frame : List ℕ → List ℕ
unfolding make_frame
make_user_data_frame bytes = make_frame user_data (some bytes) (length bytes)

unfoldable pub make_request_response_frame : MessageType → ℕ → List ℕ → List ℕ
make_request_response_frame type request_id bytes =
    let body_size = type_size + request_id_size + length bytes in
    encode_uint32 (u32 body_size) ++ (to_underlying type ∷ (encode_uint64 request_id ++ bytes))

unfoldable pub make_request_frame : ℕ → List ℕ → List ℕ
unfolding make_request_response_frame
make_request_frame request_id bytes = make_request_response_frame request request_id bytes

unfoldable pub make_response_frame : ℕ → List ℕ → List ℕ
unfolding make_request_response_frame
make_response_frame request_id bytes = make_request_response_frame response request_id bytes

unfoldable pub make_heartbeat_frame : List ℕ
unfolding make_frame
make_heartbeat_frame = make_frame heartbeat none 0

unfoldable pub make_health_check_frame : List ℕ
unfolding make_frame
make_health_check_frame = make_frame health_check none 0

unfoldable pub make_health_check_response_frame : List ℕ
unfolding make_frame
make_health_check_response_frame = make_frame health_check_response none 0
