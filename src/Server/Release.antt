-- ===== src/Server/Release.antt =====
-- server.hpp: how a server lets go of a peer, over any events.
use cpp_unix_domain_stream.Prelude.{
  ℕ, suc, ◌≡◌, ◌≤◌, ap, ◌∙◌, Bool, some, List, [], ◌∷◌, ◌⊎◌, inl, inr, get_elem?, erase_idx,
  Option-cases, arith,
}
use cpp_unix_domain_stream.Credentials.{PeerCredentials}
use cpp_unix_domain_stream.Server.State.{Server, IoTask}
use cpp_unix_domain_stream.Server.Acceptor.{bind, find}
use cpp_unix_domain_stream.Server.Peers.{peer_slot, enqueue_peer_closed}
use cpp_unix_domain_stream.Server.HealthCheck.{
  on_probe_timer, on_probe_connect, probe_slot, socket_path_health_check,
}
use cpp_unix_domain_stream.Server.Tasks.{run_task, async_shutdown, on_bind_retry}
use cpp_unix_domain_stream.Server.Events.{
  Event, step, run, io_runs, task_runs, accept_completes, timer_fires, probe_timer_fires,
  probe_connects_done,
}
use cpp_unix_domain_stream.Server.Unmoved.{
  closes, probe_timer-Unmoved, probe_connect-Unmoved, run_task-Unmoved, shutdown-Unmoved,
}
use cpp_unix_domain_stream.Server.Keeping.{
  Keeping, Unmoved-Keeping, on_accept-Keeping, timer-Keeping, run_io-Keeping,
}

-- The event is the run of what the slot of the peer's `closed` signal posted.
abbrev pub Announced : ℕ → Server → Event → Type 0
Announced id s (io_runs i r) = get_elem? s.io_tasks i ≡ some (IoTask.closed_io id)
Announced id s _ = ⊥

-- One of the events is.
abbrev pub AnnouncedIn : (PeerCredentials → Bool) → ℕ → Server → List Event → Type 0
AnnouncedIn verify_peer id s [] = ⊥
AnnouncedIn verify_peer id s (e ∷ es) =
    Announced id s e ⊎ AnnouncedIn verify_peer id (step verify_peer s e) es

module _ (verify_peer : PeerCredentials → Bool) (id p n : ℕ) where
  step-Keeping :
      (s : Server) (e : Event)
      → Keeping id p n s
      → Keeping id p n (step verify_peer s e) ⊎ Announced id s e
  unfolding step
  step-Keeping s (io_runs i r) v = elim (Option-cases (get_elem? s.io_tasks i)) [
    | inl h ↦ inl (rw (h, step) v)
    | inr (t, h) ↦
        elim (run_io-Keeping id p n r t (record s { io_tasks = erase_idx s.io_tasks i }) v) [
          | inl w ↦ inl (rw (h, step) w)
          | inr g ↦ inr (h ∙ ap some g)
        ]
  ]
  step-Keeping s (task_runs i) v = elim (Option-cases (get_elem? s.tasks i)) [
    | inl h ↦ inl (rw (h, step) v)
    | inr (t, h) ↦
        let u = record s { tasks = erase_idx s.tasks i } in
        inl (
          rw (h, step)
            (Unmoved-Keeping id p n u (run_task verify_peer t u)
              (run_task-Unmoved p verify_peer t u) v))
  ]
  step-Keeping s (accept_completes i e socket credentials) v =
      elim (Option-cases (get_elem? s.accepts i)) [
        | inl h ↦ inl (rw (h, step) v)
        | inr (token, h) ↦ inl (
            rw (h, step)
              (on_accept-Keeping id p n token e socket credentials
                (record s { accepts = erase_idx s.accepts i }) v))
      ]
  step-Keeping s (timer_fires i e) v = elim (Option-cases (get_elem? s.timers i)) [
    | inl h ↦ inl (rw (h, step) v)
    | inr ((k, peer_id), h) ↦ inl (
        rw (h, step)
          (timer-Keeping id p n k peer_id e (record s { timers = erase_idx s.timers i }) v))
  ]
  step-Keeping s (probe_timer_fires i e) v = elim (Option-cases (get_elem? s.probe_timers i)) [
    | inl h ↦ inl (rw (h, step) v)
    | inr (k, h) ↦
        let u = record s { probe_timers = erase_idx s.probe_timers i } in
        inl (
          rw (h, step)
            (Unmoved-Keeping id p n u (on_probe_timer k e u) (probe_timer-Unmoved p k e u) v))
  ]
  step-Keeping s (probe_connects_done i e) v = elim (Option-cases (get_elem? s.probe_connects i)) [
    | inl h ↦ inl (rw (h, step) v)
    | inr (k, h) ↦
        let u = record s { probe_connects = erase_idx s.probe_connects i } in
        inl (
          rw (h, step)
            (Unmoved-Keeping id p n u (on_probe_connect k e u) (probe_connect-Unmoved p k e u) v))
  ]
  step-Keeping s Event.async_shuts_down v =
      inl (Unmoved-Keeping id p n s (async_shutdown s) (shutdown-Unmoved p s) v)
  step-Keeping s e v = inl (
      unfold peer_slot enqueue_peer_closed probe_slot socket_path_health_check on_bind_retry bind in
      ground arith)

  run-Keeping :
      (s : Server) (es : List Event)
      → Keeping id p n s
      → Keeping id p n (run verify_peer s es) ⊎ AnnouncedIn verify_peer id s es
  unfolding run
  run-Keeping s [] v = inl v
  run-Keeping s (e ∷ es) v = elim (step-Keeping s e v) [
    | inl w ↦ elim (run-Keeping (step verify_peer s e) es w) [ inl x ↦ inl x | inr a ↦ inr (inr a) ]
    | inr a ↦ inr (inl a)
  ]

-- Whenever a server has peer `p` under an id, after any events it still has it under that id, or it has
-- called the close of `p` once more since, or what the slot of the `closed` signal of the peer with
-- that id posted has run.
pub server_release :
    (verify_peer : PeerCredentials → Bool) (id p : ℕ) (s : Server) (es : List Event)
    → find id s.peers ≡ some p
    → let t = run verify_peer s es in
      (find id t.peers ≡ some p) ⊎ (suc (closes p s) ≤ closes p t) ⊎ AnnouncedIn verify_peer id s es
server_release verify_peer id p s es h =
    elim (run-Keeping verify_peer id p (closes p s) s es (inl (h, omega arith))) [
      | inl (inl k) ↦ inl k.0
      | inl (inr k) ↦ inr (inl k)
      | inr a ↦ inr (inr a)
    ]
