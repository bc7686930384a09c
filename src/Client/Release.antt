-- ===== src/Client/Release.antt =====
-- client.hpp: how a client lets go of its peer, event by event.
use cpp_unix_domain_stream.Prelude.{
  ℕ, ◌≡◌, ap, ◌∙◌, Bool, none, some, List, [], ◌∷◌, ◌++◌, ◌⊎◌, inl, inr, arith, ErrorCode,
  operation_aborted, get_elem?, erase_idx, Option-cases, Bool-cases, ◌==◌, ==_iff,
}
use mathlib.Core.List.{append_assoc}
use cpp_unix_domain_stream.Options.{ClientOptions}
use cpp_unix_domain_stream.Credentials.{PeerCredentials}
use cpp_unix_domain_stream.NotificationScope.{Token, deliver}
use cpp_unix_domain_stream.Client.State.{
  Client, Task, IoTask, Call, peer_close, peer_disconnect_slots, new_client,
}
use cpp_unix_domain_stream.Client.Connection.{
  connect_on_io, on_connect, on_reconnect, close_connecting_socket, close_peer, stop_on_io,
  invalidate_on_io, connect, stop, invalidate_connection, schedule_reconnect,
  handle_connected_socket,
}
use cpp_unix_domain_stream.Client.Requests.{
  send_request, on_request_timeout, on_request_timer, send_on_io, respond_on_io, received_on_io,
  request_received_on_io, response_received_on_io, error_on_io, closed_on_io, connected_on_io,
}
use cpp_unix_domain_stream.Client.Tasks.{
  run_task, run_notice, run_io, shutdown_on_io, disconnect_peer, async_shutdown,
}
use cpp_unix_domain_stream.Client.Events.{
  Event, step, run, peer_slot, io_runs, task_runs, connect_completes, peer_emits, timer_fires,
}
use cpp_unix_domain_stream.Client.History.{client-IsSession}

-- From `c` to `d` the peer `p` is kept, or the last call is to close it.
abbrev pub Kept : ℕ → Client → Client → Type 0
Kept p c d =
    (d.peer ≡ some p)
    ⊎ ((between : List Call) × (d.calls ≡ c.calls ++ (between ++ (peer_close p ∷ []))))

-- The event is the run of what the peer `p` posted when it was closed.
abbrev pub Announced : ℕ → Client → Event → Type 0
Announced p c (io_runs i e) =
    (token : Token) × (get_elem? c.io_tasks i ≡ some (IoTask.closed_io p token))
Announced p c _ = ⊥

close-Kept :
    (p : ℕ) (e : ErrorCode) (c : Client)
    → c.peer ≡ some p
    → c.connecting_socket ≡ none
    → (close_peer e (close_connecting_socket c)).0.calls ≡ c.calls ++ (peer_close p ∷ [])
unfolding close_peer close_connecting_socket
close-Kept p e c h k = ground arith

shutdown-Kept :
    (p : ℕ) (c : Client)
    → c.peer ≡ some p
    → c.connecting_socket ≡ none
    → (shutdown_on_io c).calls ≡ c.calls ++ ((peer_disconnect_slots p ∷ []) ++ (peer_close p ∷ []))
unfolding shutdown_on_io close_peer close_connecting_socket disconnect_peer
shutdown-Kept p c h k =
    ground (arith, append_assoc c.calls (peer_disconnect_slots p ∷ []) (peer_close p ∷ []))

run_io-Kept :
    (p : ℕ) (e : ErrorCode) (t : IoTask) (c : Client)
    → c.peer ≡ some p
    → c.connecting_socket ≡ none
    → Kept p c (run_io e t c) ⊎ ((token : Token) × (t ≡ IoTask.closed_io p token))
unfolding run_io stop_on_io invalidate_on_io connect_on_io send_on_io respond_on_io send_request
    handle_connected_socket received_on_io request_received_on_io response_received_on_io
    error_on_io connected_on_io
run_io-Kept p e IoTask.stop_io c h k = inl (inr ([], close-Kept p operation_aborted c h k))
run_io-Kept p e (IoTask.invalidate_io token) c h k =
    inl (inr ([], ground (arith, close-Kept p operation_aborted c h k)))
run_io-Kept p e IoTask.shutdown_io c h k =
    inl (inr (peer_disconnect_slots p ∷ [], shutdown-Kept p c h k))
run_io-Kept p e (IoTask.closed_io q token) c h k = elim (Bool-cases (q == p)) [
  | inl s ↦ inr (token, ap (λ x. IoTask.closed_io x token) ((==_iff q p).0 s))
  | inr s ↦ inl (inl (unfold closed_on_io in ground arith))
]
run_io-Kept p e (IoTask.connect_io token) c h k = inl (inl (ground arith))
run_io-Kept p e IoTask.keep_alive_io c h k = inl (inl h)
run_io-Kept p e (IoTask.send_io bytes) c h k = inl (inl (ground arith))
run_io-Kept p e (IoTask.respond_io id bytes) c h k = inl (inl (ground arith))
run_io-Kept p e (IoTask.request_io bytes timeout callback) c h k = inl (inl (ground arith))
run_io-Kept p e (IoTask.connected_socket_io socket credentials verified token) c h k =
    inl (inl (ground arith))
run_io-Kept p e (IoTask.received_io q bytes token) c h k = inl (inl (ground arith))
run_io-Kept p e (IoTask.request_received_io q id bytes token) c h k = inl (inl (ground arith))
run_io-Kept p e (IoTask.response_received_io q id bytes) c h k = inl (inl (ground arith))
run_io-Kept p e (IoTask.error_io q e' token) c h k = inl (inl (ground arith))
run_io-Kept p e (IoTask.connected_io q credentials token) c h k = inl (inl (ground arith))

timer-Kept :
    (p id : ℕ) (token : Token) (e : ErrorCode) (c : Client)
    → c.peer ≡ some p
    → ((on_request_timer id token e c).peer ≡ some p)
      ⊎ ((on_request_timer id token e c).calls ≡ c.calls ++ (peer_close p ∷ []))
unfolding on_request_timer on_request_timeout close_peer
timer-Kept p id token e c h = ground arith

run_task-peer :
    (verify_peer : PeerCredentials → Bool) (t : Task) (c : Client)
    → (run_task verify_peer t c).peer ≡ c.peer
unfolding run_task run_notice deliver connect stop invalidate_connection schedule_reconnect
run_task-peer verify_peer t c = ground arith

on_connect-peer :
    (socket : ℕ) (token : Token) (e : ErrorCode) (credentials : PeerCredentials) (c : Client)
    → (on_connect socket token e credentials c).peer ≡ c.peer
unfolding on_connect
on_connect-peer socket token e credentials c = ground arith

step-Kept :
    (verify_peer : PeerCredentials → Bool) (p : ℕ) (c : Client) (e : Event)
    → c.peer ≡ some p
    → c.connecting_socket ≡ none
    → Kept p c (step verify_peer c e) ⊎ Announced p c e
unfolding step
step-Kept verify_peer p c (io_runs i e) h k = elim (Option-cases (get_elem? c.io_tasks i)) [
  | inl g ↦ rw (g, step) (inl (inl h))
  | inr (t, g) ↦ elim (run_io-Kept p e t (record c { io_tasks = erase_idx c.io_tasks i }) h k) [
    | inl kept ↦ inl (rw (g, step) kept)
    | inr (token, s) ↦ inr (token, g ∙ ap some s)
  ]
]
step-Kept verify_peer p c (task_runs i) h k = elim (Option-cases (get_elem? c.tasks i)) [
  | inl g ↦ inl (inl (rw (g, step) h))
  | inr (t, g) ↦ inl (
      inl
        (rw (g, step) (run_task-peer verify_peer t (record c { tasks = erase_idx c.tasks i }) ∙ h)))
]
step-Kept verify_peer p c (connect_completes i e credentials) h k =
    elim (Option-cases (get_elem? c.connects i)) [
      | inl g ↦ inl (inl (rw (g, step) h))
      | inr ((socket, token), g) ↦ inl (
          inl (
            rw (g, step)
              (on_connect-peer socket token e credentials
                  (record c { connects = erase_idx c.connects i })
                ∙ h)))
    ]
step-Kept verify_peer p c (timer_fires i e) h k = elim (Option-cases (get_elem? c.timers i)) [
  | inl g ↦ inl (inl (rw (g, step) h))
  | inr ((id, token), g) ↦
      elim (timer-Kept p id token e (record c { timers = erase_idx c.timers i }) h) [
        | inl kept ↦ inl (inl (rw (g, step) kept))
        | inr closed ↦ inl (inr ([], rw (g, step) closed))
      ]
]
step-Kept verify_peer p c (peer_emits i signal) h k = inl (inl (unfold peer_slot in ground arith))
step-Kept verify_peer p c e h k =
    inl (inl (unfold async_shutdown on_reconnect connect in ground arith))

-- Whenever a client has a peer after any events from its creation, each event that may follow keeps
-- that peer, or calls its close last, or is the run of what the slot of that peer's `closed` signal
-- posted.
pub client_release :
    (verify_peer : PeerCredentials → Bool) (options : ClientOptions) (es : List Event) (e : Event)
    (p : ℕ)
    → (run verify_peer (new_client options) es).peer ≡ some p
    → let c = run verify_peer (new_client options) es in
      Kept p c (step verify_peer c e) ⊎ Announced p c e
client_release verify_peer options es e p h =
    let c = run verify_peer (new_client options) es in
    let v = client-IsSession verify_peer options es in
    step-Kept verify_peer p c e h (elim v.exclusive [ inl k ↦ k | inr k ↦ absurd cc ])
