-- ===== src/Peer/Stream.antt =====
-- impl/peer.hpp: the read loop on the bytes that the other end has written. The socket is a list of
-- bytes, and a read takes as many as its buffer holds, or waits for more.
use cpp_unix_domain_stream.Prelude.{
  ℕ, zero, suc, ◌+◌, ◌^◌, ◌<◌, ◌≤◌, ◌≡◌, refl, ap, ◌∙◌, none, List, [], ◌∷◌, ◌++◌, ltb,
  if◌then◌else◌, length, length-append, All, take, drop, take-append, drop-append, success, arith,
}
use mathlib.Core.List.{append_assoc}
use cpp_unix_domain_stream.Protocol.{encode_uint32, header_size, u32}
use cpp_unix_domain_stream.Protocol.RoundTrip.{take-encode_uint32, drop-encode_uint32}
use cpp_unix_domain_stream.Peer.State.{Peer, ReadOp, no_read, header_read, body_read}
use cpp_unix_domain_stream.Peer.Write.{max_request_body}
use cpp_unix_domain_stream.Peer.Read.{
  on_read_header, on_read_body, read_body, resize, start_read_deadline,
}
use cpp_unix_domain_stream.Peer.Messages.{
  Message, beat, user, asks, answers, frame, body, Fits, frame_body, length-encode_uint64,
}
use cpp_unix_domain_stream.Peer.Receive.{
  IsReading, receive, receive_all, receive_message, receive_all_lem, announce, on_read_header_ok,
}

-- The bytes of the messages, one frame after the other.
abbrev pub stream : List Message → List ℕ
stream [] = []
stream (m ∷ ms) = frame m ++ stream ms

-- The outstanding read, if enough bytes are there.
abbrev pub turn : ReadOp → List ℕ → Peer → List ℕ × Peer
turn no_read bytes p = (bytes, p)
turn header_read bytes p =
    if ltb (length bytes) header_size
    then (bytes, p)
    else (drop header_size bytes, on_read_header success header_size (take header_size bytes) p)
turn body_read bytes p = if ltb (length bytes) (length p.read_body) then (bytes, p) else (
  drop (length p.read_body) bytes,
  on_read_body success (length p.read_body) (take (length p.read_body) bytes) p,
)

unfoldable pub turns : ℕ → List ℕ → Peer → List ℕ × Peer
turns zero bytes p = (bytes, p)
turns (suc n) bytes p = let (rest, q) = turn p.read_op bytes p in turns n rest q

pub length-resize : (n : ℕ) (bytes : List ℕ) → length (resize n bytes) ≡ n
length-resize zero bytes = refl
length-resize (suc n) [] = ap suc (length-resize n [])
length-resize (suc n) (b ∷ bytes) = ap suc (length-resize n bytes)

length-encode_uint32 :
    (n : ℕ) (bytes : List ℕ) → length (encode_uint32 n ++ bytes) ≡ 4 + length bytes
unfolding encode_uint32
length-encode_uint32 n bytes = omega arith

turn_header :
    (value : ℕ) (bytes : List ℕ) (p : Peer)
    → turn header_read (encode_uint32 value ++ bytes) p
      ≡ (bytes, on_read_header success header_size (encode_uint32 value) p)
turn_header value bytes p =
    rw (take-encode_uint32 value bytes, drop-encode_uint32 value bytes)
      (ground (arith, length-encode_uint32 value bytes))

pub turn_body :
    (b rest : List ℕ) (q : Peer)
    → length q.read_body ≡ length b
    → turn body_read (b ++ rest) q ≡ (rest, on_read_body success (length b) b q)
turn_body b rest q h =
    rw (h, take-append b rest, drop-append b rest) (ground (arith, length-append b rest))

-- The peer whose buffer has the size that the header announced.
abbrev pub reading : List ℕ → Peer → Peer
reading b p = read_body (record p {
  read_deadline = none;
  read_op = no_read;
  read_body = resize (length b) p.read_body;
})

module _ (frame body rest : List ℕ) (p : Peer)
    (e : frame ≡ encode_uint32 (u32 (length body)) ++ body) (o : p.read_op ≡ header_read)
    (h1 : 1 ≤ length body) (h2 : length body ≤ max_request_body p.options.max_message_size)
    (h3 : length body < 2 ^ 32) where
  first_turn : turn p.read_op (frame ++ rest) p ≡ (body ++ rest, reading body p)
  first_turn =
      let header = encode_uint32 (u32 (length body)) in
      ap (λ op. turn op (frame ++ rest) p) o
      ∙ ap (λ (bytes : List ℕ). turn header_read bytes p)
          (ap (λ f. f ++ rest) e ∙ append_assoc header body rest)
      ∙ turn_header (u32 (length body)) (body ++ rest) p
      ∙ ap (λ (q : Peer). (body ++ rest, q)) (on_read_header_ok body p h1 h2 h3)

  second_turn :
      let q = reading body p in
      turn q.read_op (body ++ rest) q ≡ (rest, on_read_body success (length body) body q)
  unfolding read_body start_read_deadline
  second_turn = turn_body body rest (reading body p) (length-resize (length body) p.read_body)

  receive_both : receive frame p ≡ on_read_body success (length body) body (reading body p)
  receive_both =
      rw
        (
          e,
          take-encode_uint32 (u32 (length body)) body,
          drop-encode_uint32 (u32 (length body)) body,
          on_read_header_ok body p h1 h2 h3,
        )
        refl

  -- Both reads of a frame at the front of the stream.
  pub turns-frame : turns 2 (frame ++ rest) p ≡ (rest, receive frame p)
  unfolding turns
  turns-frame = rw (first_turn, second_turn, receive_both) refl

  pub turns-frame_body :
      (n : ℕ)
      → turns (suc (suc n)) (frame ++ rest) p
        ≡ turns n rest (on_read_body success (length body) body (reading body p))
  unfolding turns
  turns-frame_body n = rw (first_turn, second_turn) refl

pub body_sizes :
    (max : ℕ) (m : Message)
    → max + 9 < 2 ^ 32
    → Fits max m
    → (1 ≤ length (body m)) × (length (body m) ≤ max_request_body max) × (length (body m) < 2 ^ 32)
body_sizes max beat h f = (omega arith, omega arith, omega arith)
body_sizes max (user bytes) h f = (omega arith, omega arith, omega arith)
body_sizes max (asks id bytes) h f =
    let e = length-encode_uint64 id bytes in (omega arith, omega arith, omega arith)
body_sizes max (answers id bytes) h f =
    let e = length-encode_uint64 id bytes in (omega arith, omega arith, omega arith)

-- Two reads for each message.
abbrev pub reads : List Message → ℕ
reads [] = 0
reads (m ∷ ms) = suc (suc (reads ms))

turns-stream :
    (ms : List Message) (rest : List ℕ) (p : Peer)
    → IsReading p
    → All (Fits p.options.max_message_size) ms
    → turns (reads ms) (stream ms ++ rest) p ≡ (rest, receive_all ms p)
unfolding turns receive_all
turns-stream [] rest p r f = refl
turns-stream (m ∷ ms) rest p r f =
    let (a, b, c) = body_sizes p.options.max_message_size m r.small f.0 in
    let (reading, now_ready, emitted, kept) = receive_message m p r f.0 in
    ap (λ bytes. turns (reads (m ∷ ms)) bytes p) (append_assoc (frame m) (stream ms) rest)
    ∙ ap (λ x. turns (reads ms) x.0 x.1)
        (turns-frame (frame m) (body m) (stream ms ++ rest) p (frame_body m) r.waits_header a b c)
    ∙ turns-stream ms rest (receive (frame m) p) reading (rw kept f.1)

-- The bytes of the frames of any list of messages within the receiver's limit (itself below
-- 2^32 - 9), whatever bytes follow, are consumed by two reads for each message at an open peer that
-- waits for a header: no byte of what follows is taken, and the peer has emitted exactly these
-- messages, in order, with their ids and payloads, `ready` before the first that is not a heartbeat,
-- and waits for the next header.
pub turns_lem :
    (ms : List Message) (rest : List ℕ) (p : Peer)
    → IsReading p
    → All (Fits p.options.max_message_size) ms
    → let (left, q) = turns (reads ms) (stream ms ++ rest) p in
      (left ≡ rest) × IsReading q × (q.signals ≡ p.signals ++ announce p.is_ready ms)
turns_lem ms rest p r f =
    let (reading, emitted) = receive_all_lem ms p r f in
    rw (turns-stream ms rest p r f) (refl, reading, emitted)
