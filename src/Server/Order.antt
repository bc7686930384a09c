-- ===== src/Server/Order.antt =====
-- server.hpp: the order in which a peer's messages reach the user, when the dispatcher runs its tasks
-- first in, first out.
use cpp_unix_domain_stream.Prelude.{
  ℕ, ◌≡◌, refl, Bool, none, some, List, [], ◌∷◌, ◌++◌, inl, inr, All, get_elem?, erase_idx,
  Option-cases, Bool-cases, arith,
}
use mathlib.Core.List.{append_assoc, Sublist, sublist-append_left}
use mathlib.Core.List.Sublist
use cpp_unix_domain_stream.Options.{ServerOptions}
use cpp_unix_domain_stream.Credentials.{PeerCredentials}
use cpp_unix_domain_stream.Runtime.{Runtime}
use cpp_unix_domain_stream.Server.State.{Server, ServerSignal, Task, new_server, enqueue}
use cpp_unix_domain_stream.Server.Acceptor.{bind, on_accept}
use cpp_unix_domain_stream.Server.Peers.{on_request_timer, enqueue_peer_closed}
use cpp_unix_domain_stream.Server.HealthCheck.{
  on_probe_timer, on_probe_connect, probe_slot, socket_path_health_check,
}
use cpp_unix_domain_stream.Server.Tasks.{run_task, run_io, async_shutdown, on_bind_retry}
use cpp_unix_domain_stream.Server.Events.{
  Event, step, run, io_runs, task_runs, accept_completes, peer_emits, close_completes, timer_fires,
  probe_timer_fires, probe_connects_done,
}
use cpp_unix_domain_stream.Server.Quiet.{
  run_io-Quiet, on_accept-Quiet, on_request_timer-Quiet, on_probe_timer-Quiet,
  on_probe_connect-Quiet,
}
use cpp_unix_domain_stream.Server.Line.{
  waiting, Calm, waiting-enqueue, on_accept-Calm, probe_timer-Calm, probe_connect-Calm, timer-Calm,
  run_io-Calm,
}
use cpp_unix_domain_stream.Server.Lined.{
  told, spoken, Lined, same-Lined, drop-Lined, task-Lined, more-Lined, slot-Lined,
}

abbrev spoken_in : ℕ → Server → Event → List ServerSignal
spoken_in id s (peer_emits i signal) = elim (get_elem? s.slots i) [
  | none ↦ []
  | some k ↦ spoken id k signal
]
spoken_in id s _ = []

-- What the peers with that id have emitted, in the order of the events.
abbrev pub emitted : (PeerCredentials → Bool) → ℕ → Server → List Event → List ServerSignal
emitted verify_peer id s [] = []
emitted verify_peer id s (e ∷ es) =
    spoken_in id s e ++ emitted verify_peer id (step verify_peer s e) es

-- The dispatcher runs the task that has waited longest.
abbrev pub IsInTurn : Event → Type 0
IsInTurn (task_runs i) = i ≡ 0
IsInTurn _ = Unit {0}

module _ (verify_peer : PeerCredentials → Bool) (id : ℕ) (past : List ServerSignal) where
  shutdown-Lined : (s : Server) → Lined id past s → Lined id past (async_shutdown s)
  unfolding async_shutdown
  shutdown-Lined s v = elim (Bool-cases s.shutdown_started) [
    | inl h ↦ same-Lined id past s (async_shutdown s) (ground arith) (ground arith) v
    | inr h ↦ drop-Lined id past s (async_shutdown s) (ground arith) (ground arith) v
  ]

  idle-Lined :
      (s t : Server)
      → t.signals ≡ s.signals
      → Calm id s t
      → Lined id past s
      → Lined id (past ++ []) t
  idle-Lined s t h c v = more-Lined id past t [] (same-Lined id past s t h c v)

  step-Lined :
      (s : Server) (e : Event)
      → IsInTurn e
      → Lined id past s
      → Lined id (past ++ spoken_in id s e) (step verify_peer s e)
  unfolding step enqueue_peer_closed
  step-Lined s (io_runs i r) a v = elim (Option-cases (get_elem? s.io_tasks i)) [
    | inl h ↦ rw (h, step) (more-Lined id past s [] v)
    | inr (t, h) ↦
        let u = record s { io_tasks = erase_idx s.io_tasks i } in
        rw (h, step) (idle-Lined u (run_io r t u) (run_io-Quiet r t u).1 (run_io-Calm id r t u) v)
  ]
  step-Lined s (task_runs i) a v = elim (Option-cases (get_elem? s.tasks i)) [
    | inl h ↦ rw (h, step) (more-Lined id past s [] v)
    | inr (t, h) ↦
        let g : get_elem? s.tasks 0 ≡ some t = rw⁻¹ a h in
        rw (h, step, a)
          (more-Lined id past (run_task verify_peer t (record s { tasks = erase_idx s.tasks 0 })) []
            (task-Lined id past verify_peer t s g v))
  ]
  step-Lined s (accept_completes i e socket credentials) a v =
      elim (Option-cases (get_elem? s.accepts i)) [
        | inl h ↦ rw (h, step) (more-Lined id past s [] v)
        | inr (token, h) ↦
            let u = record s { accepts = erase_idx s.accepts i } in
            rw (h, step)
              (idle-Lined u (on_accept token e socket credentials u)
                (on_accept-Quiet token e socket credentials u).1
                (on_accept-Calm id token e socket credentials u) v)
      ]
  step-Lined s (peer_emits i signal) a v = elim (Option-cases (get_elem? s.slots i)) [
    | inl h ↦ rw (h, step) (more-Lined id past s (spoken_in id s (peer_emits i signal)) v)
    | inr (k, h) ↦
        let g : spoken_in id s (peer_emits i signal) ≡ spoken id k signal =
          rw (h, spoken_in) refl in
        rw (h, step, g) (slot-Lined id past k signal s v)
  ]
  step-Lined s (close_completes i) a v = elim (Option-cases (get_elem? s.closings i)) [
    | inl h ↦ rw (h, step) (more-Lined id past s [] v)
    | inr (k, h) ↦
        let u = record s { closings = erase_idx s.closings i } in
        rw (h, step)
          (idle-Lined u (enqueue (Task.peer_closed_task k) u) (ground arith)
            (waiting-enqueue id (Task.peer_closed_task k) u refl) v)
  ]
  step-Lined s (timer_fires i e) a v = elim (Option-cases (get_elem? s.timers i)) [
    | inl h ↦ rw (h, step) (more-Lined id past s [] v)
    | inr ((k, peer_id), h) ↦
        let u = record s { timers = erase_idx s.timers i } in
        rw (h, step)
          (idle-Lined u (on_request_timer k peer_id e u) (on_request_timer-Quiet k peer_id e u).1
            (timer-Calm id k peer_id e u) v)
  ]
  step-Lined s (probe_timer_fires i e) a v = elim (Option-cases (get_elem? s.probe_timers i)) [
    | inl h ↦ rw (h, step) (more-Lined id past s [] v)
    | inr (k, h) ↦
        let u = record s { probe_timers = erase_idx s.probe_timers i } in
        rw (h, step)
          (idle-Lined u (on_probe_timer k e u) (on_probe_timer-Quiet k e u).1
            (probe_timer-Calm id k e u) v)
  ]
  step-Lined s (probe_connects_done i e) a v = elim (Option-cases (get_elem? s.probe_connects i)) [
    | inl h ↦ rw (h, step) (more-Lined id past s [] v)
    | inr (k, h) ↦
        let u = record s { probe_connects = erase_idx s.probe_connects i } in
        rw (h, step)
          (idle-Lined u (on_probe_connect k e u) (on_probe_connect-Quiet k e u).1
            (probe_connect-Calm id k e u) v)
  ]
  step-Lined s Event.async_start a v =
      idle-Lined s (enqueue Task.start_task s) (ground arith)
        (waiting-enqueue id Task.start_task s refl) v
  step-Lined s Event.async_stop a v =
      idle-Lined s (enqueue Task.stop_task s) (ground arith)
        (waiting-enqueue id Task.stop_task s refl) v
  step-Lined s Event.async_shuts_down a v =
      more-Lined id past (async_shutdown s) [] (shutdown-Lined s v)
  step-Lined s e a v =
      idle-Lined s (step verify_peer s e)
        (unfold step probe_slot socket_path_health_check on_bind_retry bind in ground arith)
        (unfold step probe_slot socket_path_health_check on_bind_retry bind in ground arith) v

run-Lined :
    (verify_peer : PeerCredentials → Bool) (id : ℕ) (past : List ServerSignal) (s : Server)
    (es : List Event)
    → All IsInTurn es
    → Lined id past s
    → Lined id (past ++ emitted verify_peer id s es) (run verify_peer s es)
unfolding run
run-Lined verify_peer id past s [] a v = more-Lined id past s [] v
run-Lined verify_peer id past s (e ∷ es) a v =
    let t = step verify_peer s e in
    rw⁻¹ (append_assoc past (spoken_in id s e) (emitted verify_peer id t es)) (
      run-Lined verify_peer id (past ++ spoken_in id s e) t es a.1
        (step-Lined verify_peer id past s e a.0 v))

-- As long as the dispatcher runs its tasks in the order in which they were enqueued, whatever else
-- happens to a new server: the messages, requests and errors of the peers with an id that the user was
-- told are some of those that these peers emitted, in the same order.
pub server_order :
    (verify_peer : PeerCredentials → Bool) (self path : ℕ) (options : ServerOptions)
    (runtime : Runtime) (es : List Event) (id : ℕ)
    → All IsInTurn es
    → let s = new_server self path options runtime in
      Sublist (told id (run verify_peer s es)) (emitted verify_peer id s es)
server_order verify_peer self path options runtime es id a =
    let s = new_server self path options runtime in
    Sublist.trans
      (sublist-append_left (told id (run verify_peer s es)) (waiting id (run verify_peer s es)))
      (run-Lined verify_peer id [] s es a (unfold new_server in Sublist.refl []))
