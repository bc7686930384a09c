-- ===== src/Client/Induction.antt =====
-- client.hpp: what holds after any events, when each handler keeps it.
use cpp_unix_domain_stream.Prelude.{
  ℕ, ◌≡◌, Bool, some, List, [], ◌∷◌, inl, inr, ErrorCode, get_elem?, erase_idx, Option-cases,
}
use cpp_unix_domain_stream.Credentials.{PeerCredentials}
use cpp_unix_domain_stream.NotificationScope.{Token}
use cpp_unix_domain_stream.Peer.State.{Signal}
use cpp_unix_domain_stream.Client.State.{Client, Task, IoTask, enqueue, post}
use cpp_unix_domain_stream.Client.Connection.{on_connect, on_reconnect}
use cpp_unix_domain_stream.Client.Requests.{on_request_timer}
use cpp_unix_domain_stream.Client.Tasks.{run_task, run_io, async_shutdown}
use cpp_unix_domain_stream.Client.Events.{
  Event, step, run, peer_slot, async_start, async_stop, async_invalidate_connection,
  async_shuts_down, async_send, async_respond, async_request, async_request_by_default, io_runs,
  task_runs, connect_completes, peer_emits, timer_fires, reconnect_fires,
}

-- Every handler keeps `P`. A handler that waited is taken out before it runs.
pub record Keeps (verify_peer : PeerCredentials → Bool) (P : Client → Type 0) : Type 0 where
  pub enqueues : (c : Client) (t : Task) → P c → P (enqueue t c)
  pub posts : (c : Client) (t : IoTask) → P c → P (post t c)
  pub shuts_down : (c : Client) → P c → P (async_shutdown c)
  pub runs_io :
      (c : Client) (i : ℕ) (e : ErrorCode) (t : IoTask)
      → P c
      → P (run_io e t (record c { io_tasks = erase_idx c.io_tasks i }))
  pub runs_task :
      (c : Client) (i : ℕ) (t : Task)
      → get_elem? c.tasks i ≡ some t
      → P c
      → P (run_task verify_peer t (record c { tasks = erase_idx c.tasks i }))
  pub connects :
      (c : Client) (i socket : ℕ) (token : Token) (e : ErrorCode) (credentials : PeerCredentials)
      → P c
      → P (on_connect socket token e credentials (record c { connects = erase_idx c.connects i }))
  pub times_out :
      (c : Client) (i id : ℕ) (token : Token) (e : ErrorCode)
      → P c
      → P (on_request_timer id token e (record c { timers = erase_idx c.timers i }))
  pub reconnects : (c : Client) → P c → P (on_reconnect c)

module _ (verify_peer : PeerCredentials → Bool) (P : Client → Type 0)
    (k : Keeps verify_peer P) where
  peer_slot-Keeps :
      (p : ℕ) (token : Token) (s : Signal) (c : Client) → P c → P (peer_slot p token s c)
  unfolding peer_slot
  peer_slot-Keeps p token Signal.ready c v = v
  peer_slot-Keeps p token (Signal.received bytes) c v =
      k.posts c (IoTask.received_io p bytes token) v
  peer_slot-Keeps p token (Signal.request_received id bytes) c v =
      k.posts c (IoTask.request_received_io p id bytes token) v
  peer_slot-Keeps p token (Signal.response_received id bytes) c v =
      k.posts c (IoTask.response_received_io p id bytes) v
  peer_slot-Keeps p token Signal.health_check_response_received c v = v
  peer_slot-Keeps p token (Signal.error_occurred e) c v = k.posts c (IoTask.error_io p e token) v
  peer_slot-Keeps p token Signal.closed c v = k.posts c (IoTask.closed_io p token) v

  pub step-Keeps : (c : Client) (e : Event) → P c → P (step verify_peer c e)
  unfolding step
  step-Keeps c async_start v = k.enqueues c Task.start_task v
  step-Keeps c async_stop v = k.enqueues c Task.stop_task v
  step-Keeps c async_invalidate_connection v = k.enqueues c Task.invalidate_task v
  step-Keeps c async_shuts_down v = k.shuts_down c v
  step-Keeps c (async_send bytes) v = k.posts c (IoTask.send_io bytes) v
  step-Keeps c (async_respond id bytes) v = k.posts c (IoTask.respond_io id bytes) v
  step-Keeps c (async_request bytes timeout callback) v =
      k.posts c (IoTask.request_io bytes timeout callback) v
  step-Keeps c (async_request_by_default bytes callback) v =
      k.posts c (IoTask.request_io bytes c.options.common_parameters.read_timeout callback) v
  step-Keeps c (io_runs i e) v = elim (Option-cases (get_elem? c.io_tasks i)) [
    | inl h ↦ rw (h, step) v
    | inr (t, h) ↦ rw (h, step) (k.runs_io c i e t v)
  ]
  step-Keeps c (task_runs i) v = elim (Option-cases (get_elem? c.tasks i)) [
    | inl h ↦ rw (h, step) v
    | inr (t, h) ↦ rw (h, step) (k.runs_task c i t h v)
  ]
  step-Keeps c (connect_completes i e credentials) v =
      elim (Option-cases (get_elem? c.connects i)) [
        | inl h ↦ rw (h, step) v
        | inr ((socket, token), h) ↦ rw (h, step) (k.connects c i socket token e credentials v)
      ]
  step-Keeps c (peer_emits i signal) v = elim (Option-cases (get_elem? c.slots i)) [
    | inl h ↦ rw (h, step) v
    | inr ((p, token), h) ↦ rw (h, step) (peer_slot-Keeps p token signal c v)
  ]
  step-Keeps c (timer_fires i e) v = elim (Option-cases (get_elem? c.timers i)) [
    | inl h ↦ rw (h, step) v
    | inr ((id, token), h) ↦ rw (h, step) (k.times_out c i id token e v)
  ]
  step-Keeps c reconnect_fires v = k.reconnects c v

  pub run-Keeps : (c : Client) (es : List Event) → P c → P (run verify_peer c es)
  unfolding run
  run-Keeps c [] v = v
  run-Keeps c (e ∷ es) v = run-Keeps (step verify_peer c e) es (step-Keeps c e v)
