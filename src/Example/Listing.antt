-- ===== src/Example/Listing.antt =====
-- example/main.cpp: what `output_received_data` prints of a buffer.
use cpp_unix_domain_stream.Prelude.{
  ℕ, zero, suc, ◌+◌, ◌≡◌, refl, List, [], ◌∷◌, ◌++◌, map, ltb, take, length, is_empty,
  if◌then◌else◌, arith,
}
use mathlib.Core.List.{append_assoc}
use cpp_unix_domain_stream.Example.Output.{
  Piece, text, number, byte, endl, output_bytes, output_received_data,
}

-- What stands for the bytes that are left out.
abbrev pub rest_of : ℕ → List Piece
rest_of size = text "... (" ∷ number size ∷ text "bytes)" ∷ []

output_bytes_lem :
    (count left size : ℕ) (buffer : List ℕ)
    → count + suc left ≡ 41
    → output_bytes count size buffer
      ≡ map byte (take (suc left) buffer)
        ++ (if ltb 40 (count + length buffer) then rest_of size else [])
unfolding output_bytes
output_bytes_lem count left size [] h = ground arith
output_bytes_lem count zero size (c ∷ rest) h = ground arith
output_bytes_lem count (suc left) size (c ∷ rest) h =
    ground (arith, output_bytes_lem (count + 1) left size rest (omega arith))

-- Of an empty buffer nothing is printed, of any other its first 41 bytes at most, in quotes; if it has
-- more than 40 bytes, its size follows the bytes.
pub output_received_data_lem :
    (buffer : List ℕ)
    → output_received_data buffer ≡ (
        if is_empty buffer
        then []
        else text "buffer: `"
          ∷ (map byte (take 41 buffer)
              ++ ((if ltb 40 (length buffer) then rest_of (length buffer) else [])
                  ++ (text "`" ∷ endl ∷ []))))
unfolding output_received_data
output_received_data_lem [] = refl
output_received_data_lem (c ∷ rest) = ground (
  arith,
  output_bytes_lem 0 40 (length (c ∷ rest)) (c ∷ rest) (omega arith),
  append_assoc (map byte (take 41 (c ∷ rest)))
      (if ltb 40 (length (c ∷ rest)) then rest_of (length (c ∷ rest)) else [])
      (text "`" ∷ endl ∷ []),
)
