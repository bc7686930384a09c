-- ===== src/Peer/Messages.antt =====
-- The messages that impl/peer.hpp frames with the functions of impl/protocol.hpp.
use cpp_unix_domain_stream.Prelude.{
  ℕ, ◌+◌, ◌^◌, ◌<◌, ◌≤◌, ◌≡◌, refl, ap, some, List, [], ◌∷◌, ◌++◌, length, take-length, arith,
}
use cpp_unix_domain_stream.Protocol.{
  encode_uint32, encode_uint64, make_heartbeat_frame, make_user_data_frame, make_request_frame,
  make_response_frame, make_frame, make_request_response_frame, payload, u32,
}

pub data Message : Type 0 where
  beat : Message
  user : List ℕ → Message
  asks answers : ℕ → List ℕ → Message

abbrev pub frame : Message → List ℕ
frame beat = make_heartbeat_frame
frame (user bytes) = make_user_data_frame bytes
frame (asks id bytes) = make_request_frame id bytes
frame (answers id bytes) = make_response_frame id bytes

-- A message whose payload is within the limit and whose id is a uint64_t.
abbrev pub Fits : ℕ → Message → Type 0
Fits max beat = Unit {0}
Fits max (user bytes) = length bytes ≤ max
Fits max (asks id bytes) = (length bytes ≤ max) × (id < 2 ^ 64)
Fits max (answers id bytes) = (length bytes ≤ max) × (id < 2 ^ 64)

-- The body: all but the header.
abbrev pub body : Message → List ℕ
body beat = 0 ∷ []
body (user bytes) = 1 ∷ bytes
body (asks id bytes) = 4 ∷ (encode_uint64 id ++ bytes)
body (answers id bytes) = 5 ∷ (encode_uint64 id ++ bytes)

payload_self : (bytes : List ℕ) → payload (some bytes) (length bytes) ≡ bytes
payload_self [] = refl
payload_self (b ∷ bytes) = ground (arith, take-length bytes)

pub length-encode_uint64 :
    (id : ℕ) (bytes : List ℕ) → length (encode_uint64 id ++ bytes) ≡ 8 + length bytes
unfolding encode_uint64
length-encode_uint64 id bytes = omega arith

pub frame_body : (m : Message) → frame m ≡ encode_uint32 (u32 (length (body m))) ++ body m
unfolding make_heartbeat_frame make_user_data_frame make_request_frame make_response_frame
    make_frame make_request_response_frame
frame_body beat = refl
frame_body (user bytes) =
    rw (payload_self bytes) (ap (λ (n : ℕ). encode_uint32 (u32 n) ++ (1 ∷ bytes)) (omega arith))
frame_body (asks id bytes) =
    rw (length-encode_uint64 id bytes)
      (ap (λ (n : ℕ). encode_uint32 (u32 n) ++ (4 ∷ (encode_uint64 id ++ bytes))) (omega arith))
frame_body (answers id bytes) =
    rw (length-encode_uint64 id bytes)
      (ap (λ (n : ℕ). encode_uint32 (u32 n) ++ (5 ∷ (encode_uint64 id ++ bytes))) (omega arith))
