-- ===== src/Peer/Receive.antt =====
-- impl/peer.hpp: the read loop on frames that impl/protocol.hpp has made.
use cpp_unix_domain_stream.Prelude.{
  ℕ, ◌+◌, ◌^◌, ◌<◌, ◌≤◌, ◌≡◌, refl, sym, ◌∙◌, Bool, true, false, none, some, List, [], ◌∷◌, ◌++◌,
  if◌then◌else◌, length, All, take, drop, get_or, success, arith,
}
use mathlib.Core.List.{append-nil, append_assoc}
use cpp_unix_domain_stream.Protocol.{
  user_data, encode_uint32, encode_uint64, header_size, message_type, u32,
}
use cpp_unix_domain_stream.Protocol.RoundTrip.{
  take-encode_uint32, drop-encode_uint32, drop-encode_uint64, decode_uint32-encode_uint32,
  decode_uint64-encode_uint64,
}
use cpp_unix_domain_stream.Peer.State.{
  Peer, Signal, received, request_received, response_received, ready, emit, ensure_ready,
  header_read, no_read,
}
use cpp_unix_domain_stream.Peer.Write.{max_request_body}
use cpp_unix_domain_stream.Peer.Read.{
  read_header, read_body, on_read_header, handle_request_response, handle_body, on_read_body,
  refresh_heartbeat_deadline, start_read_deadline, resize,
}
use cpp_unix_domain_stream.Peer.Messages.{
  Message, beat, user, asks, answers, frame, Fits, frame_body, length-encode_uint64,
}

-- The two reads of a frame that stands at the front of the stream.
abbrev pub receive : List ℕ → Peer → Peer
receive bytes p =
    on_read_body success (length (drop header_size bytes)) (drop header_size bytes)
      (on_read_header success header_size (take header_size bytes) p)

-- The peer after both reads, before it looks at the body.
abbrev pub after_reads : List ℕ → Peer → Peer
after_reads b p = record p {
  read_deadline = none;
  read_op = no_read;
  read_body = b;
  heartbeat_deadline = some p.options.heartbeat_timeout;
}

pub on_read_header_ok :
    (b : List ℕ) (p : Peer)
    → 1 ≤ length b
    → length b ≤ max_request_body p.options.max_message_size
    → length b < 2 ^ 32
    → on_read_header success header_size (encode_uint32 (u32 (length b))) p
      ≡ read_body (record p {
        read_deadline = none;
        read_op = no_read;
        read_body = resize (length b) p.read_body;
      })
unfolding on_read_header
on_read_header_ok b p h1 h2 h3 = ground (arith, decode_uint32-encode_uint32 (u32 (length b)))

pub on_read_body_ok :
    (b : List ℕ) (p : Peer)
    → on_read_body success (length b) b p
      ≡ handle_body (message_type (get_or b 0 0)) (after_reads b p)
unfolding on_read_body refresh_heartbeat_deadline
on_read_body_ok b p = ground arith

pub receive_frame :
    (b : List ℕ) (p : Peer)
    → 1 ≤ length b
    → length b ≤ max_request_body p.options.max_message_size
    → length b < 2 ^ 32
    → receive (encode_uint32 (u32 (length b)) ++ b) p
      ≡ handle_body (message_type (get_or b 0 0)) (after_reads b p)
receive_frame b p h1 h2 h3 =
    rw
      (
        take-encode_uint32 (u32 (length b)) b,
        drop-encode_uint32 (u32 (length b)) b,
        on_read_header_ok b p h1 h2 h3,
      )
      (on_read_body_ok b (
          read_body (record p {
            read_deadline = none;
            read_op = no_read;
            read_body = resize (length b) p.read_body;
          }))
        ∙ (unfold read_body start_read_deadline in refl))

-- The signals of a stream of messages, at a peer that has announced itself or has not.
abbrev pub announce : Bool → List Message → List Signal
announce is_ready [] = []
announce is_ready (beat ∷ ms) = announce is_ready ms
announce true (user bytes ∷ ms) = received bytes ∷ announce true ms
announce false (user bytes ∷ ms) = ready ∷ received bytes ∷ announce true ms
announce true (asks id bytes ∷ ms) = request_received id bytes ∷ announce true ms
announce false (asks id bytes ∷ ms) = ready ∷ request_received id bytes ∷ announce true ms
announce true (answers id bytes ∷ ms) = response_received id bytes ∷ announce true ms
announce false (answers id bytes ∷ ms) = ready ∷ response_received id bytes ∷ announce true ms

-- A peer that waits for the next header.
pub record IsReading (p : Peer) : Type 0 where
  pub open_socket : p.is_open ≡ true
  pub waits_header : p.read_op ≡ header_read
  pub small : p.options.max_message_size + 9 < 2 ^ 32

abbrev becomes_ready : Bool → Message → Bool
becomes_ready is_ready beat = is_ready
becomes_ready is_ready _ = true

-- One message: the peer waits for the next header, having emitted the message.
abbrev Received : Message → Peer → Peer → Type 0
Received m p q =
    IsReading q
    × (q.is_ready ≡ becomes_ready p.is_ready m)
    × (q.signals ≡ p.signals ++ announce p.is_ready (m ∷ []))
    × (q.options ≡ p.options)

emit_message :
    (s : Signal) (p : Peer)
    → p.is_open ≡ true
    → p.options.max_message_size + 9 < 2 ^ 32
    → let q = read_header (emit s (ensure_ready p)) in
      IsReading q
      × (q.is_ready ≡ true)
      × (q.signals ≡ p.signals ++ (if p.is_ready then s ∷ [] else ready ∷ s ∷ []))
      × (q.options ≡ p.options)
unfolding read_header start_read_deadline ensure_ready
emit_message s p o h = ground (arith, append_assoc p.signals (ready ∷ []) (s ∷ []))

user_signals :
    (b : Bool) (bytes : List ℕ)
    → announce b (user bytes ∷ [])
      ≡ (if b then received bytes ∷ [] else ready ∷ received bytes ∷ [])
user_signals true bytes = refl
user_signals false bytes = refl

asks_signals :
    (b : Bool) (id : ℕ) (bytes : List ℕ)
    → announce b (asks id bytes ∷ [])
      ≡ (if b then request_received id bytes ∷ [] else ready ∷ request_received id bytes ∷ [])
asks_signals true id bytes = refl
asks_signals false id bytes = refl

answers_signals :
    (b : Bool) (id : ℕ) (bytes : List ℕ)
    → announce b (answers id bytes ∷ [])
      ≡ (if b then response_received id bytes ∷ [] else ready ∷ response_received id bytes ∷ [])
answers_signals true id bytes = refl
answers_signals false id bytes = refl

ensure_ready_keeps :
    (p : Peer) → ((ensure_ready p).read_body ≡ p.read_body) × ((ensure_ready p).options ≡ p.options)
unfolding ensure_ready
ensure_ready_keeps p = ground arith

pub handle_user :
    (bytes : List ℕ) (p : Peer)
    → length bytes ≤ p.options.max_message_size
    → p.options.max_message_size + 9 < 2 ^ 32
    → handle_body (some user_data) (after_reads (1 ∷ bytes) p)
      ≡ read_header (emit (received bytes) (ensure_ready (after_reads (1 ∷ bytes) p)))
unfolding handle_body
handle_user bytes p f h = ground (arith, ensure_ready_keeps (after_reads (1 ∷ bytes) p))

pub handle_request :
    (signal : ℕ → List ℕ → Signal) (type id : ℕ) (bytes : List ℕ) (p : Peer)
    → length bytes ≤ p.options.max_message_size
    → id < 2 ^ 64
    → p.options.max_message_size + 9 < 2 ^ 32
    → let b = type ∷ (encode_uint64 id ++ bytes) in
      handle_request_response signal (after_reads b p)
      ≡ read_header (emit (signal id bytes) (ensure_ready (after_reads b p)))
unfolding handle_request_response
handle_request signal type id bytes p f g h =
    let b = type ∷ (encode_uint64 id ++ bytes) in
    ground (
      arith,
      ensure_ready_keeps (after_reads b p),
      length-encode_uint64 id bytes,
      decode_uint64-encode_uint64 id type bytes g,
      drop-encode_uint64 id type bytes,
    )

pub receive_message :
    (m : Message) (p : Peer)
    → IsReading p
    → Fits p.options.max_message_size m
    → Received m p (receive (frame m) p)
unfolding handle_body message_type
receive_message beat p r f =
    rw
      (
        frame_body beat,
        receive_frame (0 ∷ []) p (omega arith) (omega arith) (omega arith),
        append-nil p.signals,
      )
      (unfold read_header start_read_deadline in ground arith)
receive_message (user bytes) p r f =
    rw
      (
        frame_body (user bytes),
        receive_frame (1 ∷ bytes) p (omega arith) (omega arith) (omega arith),
        handle_user bytes p f r.small,
        user_signals p.is_ready bytes,
      )
      (emit_message (received bytes) (after_reads (1 ∷ bytes) p) r.open_socket r.small)
receive_message (asks id bytes) p r f =
    let b = 4 ∷ (encode_uint64 id ++ bytes) in
    let e = length-encode_uint64 id bytes in
    rw
      (
        frame_body (asks id bytes),
        receive_frame b p (omega arith) (omega arith) (omega arith),
        handle_request request_received 4 id bytes p f.0 f.1 r.small,
        asks_signals p.is_ready id bytes,
      )
      (emit_message (request_received id bytes) (after_reads b p) r.open_socket r.small)
receive_message (answers id bytes) p r f =
    let b = 5 ∷ (encode_uint64 id ++ bytes) in
    let e = length-encode_uint64 id bytes in
    rw
      (
        frame_body (answers id bytes),
        receive_frame b p (omega arith) (omega arith) (omega arith),
        handle_request response_received 5 id bytes p f.0 f.1 r.small,
        answers_signals p.is_ready id bytes,
      )
      (emit_message (response_received id bytes) (after_reads b p) r.open_socket r.small)

-- The frames of a list of messages, read one after the other.
unfoldable pub receive_all : List Message → Peer → Peer
receive_all [] p = p
receive_all (m ∷ ms) p = receive_all ms (receive (frame m) p)

announce-cons :
    (b : Bool) (m : Message) (ms : List Message)
    → announce b (m ∷ ms) ≡ announce b (m ∷ []) ++ announce (becomes_ready b m) ms
announce-cons b beat ms = refl
announce-cons true (user bytes) ms = refl
announce-cons false (user bytes) ms = refl
announce-cons true (asks id bytes) ms = refl
announce-cons false (asks id bytes) ms = refl
announce-cons true (answers id bytes) ms = refl
announce-cons false (answers id bytes) ms = refl

-- The frames that the make functions build for any list of messages within the receiver's limit
-- (itself below 2^32 - 9) are read back by an open peer that waits for a header: it emits exactly
-- these messages, in order, with their ids and payloads, `ready` before the first that is not a
-- heartbeat, no error, and then waits for the next header.
pub receive_all_lem :
    (ms : List Message) (p : Peer)
    → IsReading p
    → All (Fits p.options.max_message_size) ms
    → IsReading (receive_all ms p)
      × ((receive_all ms p).signals ≡ p.signals ++ announce p.is_ready ms)
unfolding receive_all
receive_all_lem [] p r f = (r, sym (append-nil p.signals))
receive_all_lem (m ∷ ms) p r f =
    let (reading, now_ready, emitted, kept) = receive_message m p r f.0 in
    let (done, all) = receive_all_lem ms (receive (frame m) p) reading (rw kept f.1) in
    (
      done,
      all
          ∙ rw (emitted, now_ready, announce-cons p.is_ready m ms)
              (append_assoc p.signals (announce p.is_ready (m ∷ []))
                (announce (becomes_ready p.is_ready m) ms)),
    )
