-- ===== src/Example/Output.antt =====
-- example/main.cpp: what the program prints. A piece is one `<<` on `std::cout`.
use Prim.Native.Char.{code}
use Prim.Native.String.{String}
use cpp_unix_domain_stream.Prelude.{
  ℕ, ◌+◌, ◌-◌, ◌^◌, Option, none, some, List, [], ◌∷◌, ◌++◌, ltb, if◌then◌else◌, length, is_empty,
  ErrorCode, is_error,
}
use cpp_unix_domain_stream.Credentials.{PeerCredentials}

pub data Piece : Type 0 where
  text : String → Piece
  number : ℕ → Piece
  minus_one : Piece
  message : ErrorCode → Piece
  byte : ℕ → Piece
  endl : Piece

-- `std::vector<uint8_t>(std::begin(string), std::end(string))`, for the ASCII texts of the program.
abbrev pub make_buffer : String → List ℕ
make_buffer String.[] = []
make_buffer (String.◌∷◌ c s) = code c ∷ make_buffer s

-- The loop of `output_received_data`, from `count` on.
unfoldable pub output_bytes : ℕ → ℕ → List ℕ → List Piece
output_bytes count size [] = []
output_bytes count size (c ∷ rest) =
    let more = output_bytes (count + 1) size rest in
    byte c ∷ (if ltb 40 (count + 1) then text "... (" ∷ number size ∷ text "bytes)" ∷ [] else more)

unfoldable pub output_received_data : List ℕ → List Piece
unfolding output_bytes
output_received_data buffer =
    if is_empty buffer
    then []
    else text "buffer: `" ∷ (output_bytes 0 (length buffer) buffer ++ (text "`" ∷ endl ∷ []))

-- `value_or(-1)` of a `pid_t`, which is signed, and of a `uid_t` or a `gid_t`, which is an unsigned
-- 32-bit integer.
abbrev pub pid_or_minus_one : Option ℕ → Piece
pid_or_minus_one none = minus_one
pid_or_minus_one (some n) = number n

abbrev pub id_or_minus_one : Option ℕ → Piece
id_or_minus_one none = number (2 ^ 32 - 1)
id_or_minus_one (some n) = number n

unfoldable pub output_peer_credentials : PeerCredentials → List Piece
output_peer_credentials credentials =
    text "peer_pid: "
    ∷ pid_or_minus_one credentials.pid
    ∷ endl
    ∷ text "peer_uid: "
    ∷ id_or_minus_one credentials.uid
    ∷ endl
    ∷ text "peer_gid: "
    ∷ id_or_minus_one credentials.gid
    ∷ endl
    ∷ []

-- A response that is there whenever there is no error, as the callback's contract says; the source
-- dereferences it.
unfoldable pub output_async_request_result : String → ErrorCode → Option (List ℕ) → List Piece
unfolding output_received_data
output_async_request_result label error_code none =
    if is_error error_code
    then text label ∷ text " failed: " ∷ message error_code ∷ endl ∷ []
    else []
output_async_request_result label error_code (some response) =
    if is_error error_code
    then text label ∷ text " failed: " ∷ message error_code ∷ endl ∷ []
    else text label
      ∷ text " response size:"
      ∷ number (length response)
      ∷ endl
      ∷ output_received_data response
