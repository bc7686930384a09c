-- ===== src/Protocol/RoundTrip.antt =====
-- impl/protocol.hpp: encoding and decoding of integers.
use cpp_unix_domain_stream.Prelude.{ℕ, ◌^◌, ◌<◌, ◌≡◌, List, ◌∷◌, ◌++◌, take, drop, refl, All, arith}
use cpp_unix_domain_stream.Protocol.{encode_uint32, decode_uint32, encode_uint64, decode_uint64}

abbrev pub IsByte : ℕ → Type 0
IsByte b = b < 256

-- The header of a frame carries every 32-bit body size exactly.
pub decode_uint32-encode_uint32 :
    (value : ℕ) → value < 2 ^ 32 → decode_uint32 (encode_uint32 value) ≡ value
unfolding encode_uint32 decode_uint32
decode_uint32-encode_uint32 value h = omega arith

-- The first four bytes of a frame are its header, and the rest is its body.
pub take-encode_uint32 :
    (value : ℕ) (rest : List ℕ) → take 4 (encode_uint32 value ++ rest) ≡ encode_uint32 value
unfolding encode_uint32
take-encode_uint32 value rest = refl

pub drop-encode_uint32 : (value : ℕ) (rest : List ℕ) → drop 4 (encode_uint32 value ++ rest) ≡ rest
unfolding encode_uint32
drop-encode_uint32 value rest = refl

pub drop-encode_uint64 :
    (value type : ℕ) (rest : List ℕ) → drop 9 (type ∷ (encode_uint64 value ++ rest)) ≡ rest
unfolding encode_uint64
drop-encode_uint64 value type rest = refl

-- Every 64-bit request id is read back from behind the type byte, whatever follows it.
pub decode_uint64-encode_uint64 :
    (value type : ℕ) (rest : List ℕ)
    → value < 2 ^ 64
    → decode_uint64 (type ∷ (encode_uint64 value ++ rest)) 1 ≡ value
unfolding encode_uint64 decode_uint64
decode_uint64-encode_uint64 value type rest h = omega arith

encode_uint32-IsByte : (value : ℕ) → All IsByte (encode_uint32 value)
unfolding encode_uint32
encode_uint32-IsByte value = omega arith

encode_uint64-IsByte : (value : ℕ) → All IsByte (encode_uint64 value)
unfolding encode_uint64
encode_uint64-IsByte value = omega arith
