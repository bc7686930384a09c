-- ===== src/Link/Packets.antt =====
-- impl/protocol.hpp: all the frames that impl/peer.hpp sends, and the messages that they carry.
use cpp_unix_domain_stream.Prelude.{
  ℕ, ◌+◌, ◌^◌, ◌<◌, ◌≤◌, ◌≡◌, refl, ap, sym, ◌∙◌, true, List, [], ◌∷◌, ◌++◌, length, arith,
}
use mathlib.Core.List.{append_assoc}
use cpp_unix_domain_stream.Protocol.{
  encode_uint32, make_health_check_frame, make_health_check_response_frame, u32,
}
use cpp_unix_domain_stream.Peer.State.{Signal, received, request_received, response_received}
use cpp_unix_domain_stream.Peer.Write.{max_request_body, valid_outgoing_frame}
use cpp_unix_domain_stream.Peer.Messages
use cpp_unix_domain_stream.Peer.Messages.{Message, beat, user, asks, answers, Fits}
use cpp_unix_domain_stream.Peer.Send.{frame_valid}
use cpp_unix_domain_stream.Peer.Stream.{body_sizes}
use cpp_unix_domain_stream.Peer.Check.{health_check_frame, response_frame}

pub data Packet : Type 0 where
  carries : Message → Packet
  check check_answer : Packet

abbrev pub frame : Packet → List ℕ
frame (carries m) = Messages.frame m
frame check = make_health_check_frame
frame check_answer = make_health_check_response_frame

abbrev pub body : Packet → List ℕ
body (carries m) = Messages.body m
body check = 2 ∷ []
body check_answer = 3 ∷ []

-- Its frames one after the other.
abbrev pub stream : List Packet → List ℕ
stream [] = []
stream (m ∷ ms) = frame m ++ stream ms

-- The message that a packet brings to the user, if any.
abbrev pub message : Packet → List Message
message (carries beat) = []
message (carries m) = m ∷ []
message check = []
message check_answer = []

abbrev pub messages : List Packet → List Message
messages [] = []
messages (m ∷ ms) = message m ++ messages ms

-- The message that a signal hands to the user, if any.
abbrev pub handed : Signal → List Message
handed (received bytes) = user bytes ∷ []
handed (request_received id bytes) = asks id bytes ∷ []
handed (response_received id bytes) = answers id bytes ∷ []
handed _ = []

abbrev pub all_handed : List Signal → List Message
all_handed [] = []
all_handed (s ∷ rest) = handed s ++ all_handed rest

-- A request id is a uint64_t.
abbrev pub HasId : Packet → Type 0
HasId (carries (asks id bytes)) = id < 2 ^ 64
HasId (carries (answers id bytes)) = id < 2 ^ 64
HasId _ = Unit {0}

-- A packet that a receiver with this limit takes.
abbrev pub FitsIn : ℕ → Packet → Type 0
FitsIn max (carries m) = Fits max m
FitsIn max _ = Unit {0}

-- A packet after which a receiver reads the next one.
abbrev pub KeepsReading : Packet → Type 0
KeepsReading check = ⊥
KeepsReading _ = Unit {0}

pub frame_body : (m : Packet) → frame m ≡ encode_uint32 (u32 (length (body m))) ++ body m
frame_body (carries m) = Messages.frame_body m
frame_body check = health_check_frame
frame_body check_answer = response_frame

pub sizes :
    (max : ℕ) (m : Packet)
    → max + 9 < 2 ^ 32
    → FitsIn max m
    → (1 ≤ length (body m)) × (length (body m) ≤ max_request_body max) × (length (body m) < 2 ^ 32)
sizes max (carries m) h f = body_sizes max m h f
sizes max check h f = (omega arith, omega arith, omega arith)
sizes max check_answer h f = (omega arith, omega arith, omega arith)

-- What a sender accepts, a receiver with at least its limit takes.
pub valid-FitsIn :
    (max limit : ℕ) (m : Packet)
    → max ≤ limit
    → limit + 9 < 2 ^ 32
    → HasId m
    → valid_outgoing_frame max (frame m) ≡ true
    → FitsIn limit m
valid-FitsIn max limit check l h i v = tt
valid-FitsIn max limit check_answer l h i v = tt
valid-FitsIn max limit (carries beat) l h i v = tt
valid-FitsIn max limit (carries (user bytes)) l h i v =
    ground (arith, frame_valid max (user bytes) (omega arith))
valid-FitsIn max limit (carries (asks id bytes)) l h i v =
    ground (arith, frame_valid max (asks id bytes) (omega arith))
valid-FitsIn max limit (carries (answers id bytes)) l h i v =
    ground (arith, frame_valid max (answers id bytes) (omega arith))

pub stream-append : (xs ys : List Packet) → stream (xs ++ ys) ≡ stream xs ++ stream ys
stream-append [] ys = refl
stream-append (m ∷ ms) ys =
    ap (λ bytes. frame m ++ bytes) (stream-append ms ys)
    ∙ sym (append_assoc (frame m) (stream ms) (stream ys))

pub messages-append : (xs ys : List Packet) → messages (xs ++ ys) ≡ messages xs ++ messages ys
messages-append [] ys = refl
messages-append (m ∷ ms) ys =
    ap (λ rest. message m ++ rest) (messages-append ms ys)
    ∙ sym (append_assoc (message m) (messages ms) (messages ys))

pub handed-append : (xs ys : List Signal) → all_handed (xs ++ ys) ≡ all_handed xs ++ all_handed ys
handed-append [] ys = refl
handed-append (s ∷ rest) ys =
    ap (λ ms. handed s ++ ms) (handed-append rest ys)
    ∙ sym (append_assoc (handed s) (all_handed rest) (all_handed ys))
