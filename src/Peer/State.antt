-- ===== src/Peer/State.antt =====
-- impl/peer.hpp: the members of a peer, its signals, and how it closes.
-- A timer is the delay of its pending wait, or `none`; an asynchronous read or write is the operation
-- whose completion is outstanding. `signals` holds what was handed to the dispatcher, oldest first.
use cpp_unix_domain_stream.Prelude.{
  ℕ, Bool, true, false, Option, none, List, [], ◌∷◌, ◌++◌, if◌then◌else◌, ErrorCode, is_aborted,
}
use cpp_unix_domain_stream.Options.{CommonParameters}

pub data Signal : Type 0 where
  ready : Signal
  received : List ℕ → Signal
  request_received response_received : ℕ → List ℕ → Signal
  health_check_response_received : Signal
  error_occurred : ErrorCode → Signal
  closed : Signal

pub data ReadOp : Type 0 where
  no_read header_read body_read : ReadOp

pub record Peer : Type 0 where
  pub options : CommonParameters
  pub is_open : Bool
  pub closed_on_executor : Bool
  pub is_ready : Bool
  pub close_after_write : Bool
  pub ready_deadline : Option ℕ
  pub heartbeat_timer : Option ℕ
  pub heartbeat_deadline : Option ℕ
  pub read_deadline : Option ℕ
  pub write_deadline : Option ℕ
  pub read_body : List ℕ
  pub write_queue : List (List ℕ)
  pub read_op : ReadOp
  pub write_op : Option (List ℕ)
  pub signals : List Signal

-- A peer made from a connected socket.
unfoldable pub new_peer : CommonParameters → Peer
new_peer options = record {
  options = options;
  is_open = true;
  closed_on_executor = false;
  is_ready = false;
  close_after_write = false;
  ready_deadline = none;
  heartbeat_timer = none;
  heartbeat_deadline = none;
  read_deadline = none;
  write_deadline = none;
  read_body = [];
  write_queue = [];
  read_op = no_read;
  write_op = none;
  signals = [];
}

-- `enqueue_to_dispatcher` of a signal.
abbrev pub emit : Signal → Peer → Peer
emit s p = record p { signals = p.signals ++ (s ∷ []) }

-- Operations that are outstanding stay so: their handlers run later.
unfoldable pub close_socket : Peer → Peer
close_socket p = record p {
  closed_on_executor = true;
  ready_deadline = none;
  heartbeat_timer = none;
  heartbeat_deadline = none;
  read_deadline = none;
  write_deadline = none;
  is_open = false;
}

unfoldable pub close : Peer → Peer
unfolding close_socket
close p = let q = close_socket p in if p.is_open then emit closed q else q

unfoldable pub handle_error : ErrorCode → Peer → Peer
handle_error error_code p =
    if is_aborted error_code then p else close (emit (error_occurred error_code) p)

unfoldable pub ensure_ready : Peer → Peer
ensure_ready p =
    if p.is_ready then p else emit ready (record p { is_ready = true; ready_deadline = none })

-- What the destructor does. `detaches` waits for the peer's handlers on the dispatcher and drops
-- those that have not run.
pub data Destruction : Type 0 where
  aborts detaches : Destruction

unfoldable pub destroy_peer : Peer → Destruction
destroy_peer p = if p.closed_on_executor then detaches else aborts
