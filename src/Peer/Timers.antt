-- ===== src/Peer/Timers.antt =====
-- impl/peer.hpp: the timers, and the entry points that other threads post to the executor.
-- A handler gets `success` when its timer has expired, also one that was queued before the timer was
-- cancelled, and an error when the wait was cancelled.
use cpp_unix_domain_stream.Prelude.{
  ℕ, none, some, List, if◌then◌else◌, ErrorCode, timed_out, is_error,
}
use cpp_unix_domain_stream.Options.{normalize_scheduling_interval}
use cpp_unix_domain_stream.Protocol.{
  make_heartbeat_frame, make_user_data_frame, make_request_frame, make_response_frame,
  make_health_check_frame,
}
use cpp_unix_domain_stream.Peer.State.{Peer, handle_error, ensure_ready}
use cpp_unix_domain_stream.Peer.Write.{push_frame}
use cpp_unix_domain_stream.Peer.Read.{read_header, refresh_heartbeat_deadline}

unfoldable pub start_heartbeat_timer : Peer → Peer
start_heartbeat_timer p = record p {
  heartbeat_timer = some (normalize_scheduling_interval p.options.heartbeat_interval);
}

unfoldable pub on_heartbeat_timer : ErrorCode → Peer → Peer
on_heartbeat_timer error_code p =
    if is_error error_code
    then p
    else let q = record p { heartbeat_timer = none } in
      if q.is_open then start_heartbeat_timer (push_frame make_heartbeat_frame q) else q

unfoldable pub on_heartbeat_deadline : ErrorCode → Peer → Peer
on_heartbeat_deadline error_code p =
    if is_error error_code
    then p
    else handle_error timed_out (record p { heartbeat_deadline = none })

unfoldable pub on_read_deadline : ErrorCode → Peer → Peer
on_read_deadline error_code p =
    if is_error error_code then p else handle_error timed_out (record p { read_deadline = none })

unfoldable pub on_write_deadline : ErrorCode → Peer → Peer
on_write_deadline error_code p =
    if is_error error_code then p else handle_error timed_out (record p { write_deadline = none })

unfoldable pub start_ready_deadline : Peer → Peer
start_ready_deadline p = record p { ready_deadline = some 100 }

unfoldable pub on_ready_deadline : ErrorCode → Peer → Peer
on_ready_deadline error_code p =
    if is_error error_code then p else ensure_ready (record p { ready_deadline = none })

-- What `async_start` posts.
unfoldable pub start : Peer → Peer
start p = read_header (refresh_heartbeat_deadline (start_heartbeat_timer (start_ready_deadline p)))

-- What `async_send`, `async_send_request`, `async_send_response` and `async_send_health_check` post.
unfoldable pub send : List ℕ → Peer → Peer
send bytes p = push_frame (make_user_data_frame bytes) p

unfoldable pub send_request : ℕ → List ℕ → Peer → Peer
send_request request_id bytes p = push_frame (make_request_frame request_id bytes) p

unfoldable pub send_response : ℕ → List ℕ → Peer → Peer
send_response request_id bytes p = push_frame (make_response_frame request_id bytes) p

unfoldable pub send_health_check : Peer → Peer
send_health_check p = push_frame make_health_check_frame p
