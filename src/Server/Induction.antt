-- ===== src/Server/Induction.antt =====
-- server.hpp: what holds after any events, when each handler keeps it.
use cpp_unix_domain_stream.Prelude.{
  ℕ, ◌≡◌, Bool, some, List, [], ◌∷◌, All, inl, inr, ErrorCode, get_elem?, erase_idx, Option-cases,
}
use cpp_unix_domain_stream.Credentials.{PeerCredentials}
use cpp_unix_domain_stream.NotificationScope.{Token, capture}
use cpp_unix_domain_stream.Peer.State.{Signal}
use cpp_unix_domain_stream.Server.State.{Server, Slot, Probe, Task, IoTask, enqueue, post}
use cpp_unix_domain_stream.Server.Acceptor.{BindResults, on_accept}
use cpp_unix_domain_stream.Server.Peers.{on_request_timer, enqueue_peer_closed, peer_slot}
use cpp_unix_domain_stream.Server.HealthCheck.{
  on_probe_timer, on_probe_connect, probe_slot, socket_path_health_check,
}
use cpp_unix_domain_stream.Server.Tasks.{run_task, run_io, async_shutdown, on_bind_retry}
use cpp_unix_domain_stream.Server.Events.{
  Event, step, run, async_start, async_stop, async_shuts_down, async_send, async_respond,
  async_request, async_request_by_default, async_close_peer, io_runs, task_runs, accept_completes,
  peer_emits, close_completes, timer_fires, probe_timer_fires, probe_connects_done, probe_emits,
  health_check_fires, bind_retry_fires,
}

-- Every handler keeps `P`, when the file system answers as `Answers` says. A handler that waited is
-- taken out before it runs.
pub record KeepsIf (verify_peer : PeerCredentials → Bool) (Answers : BindResults → Type 0)
    (P : Server → Type 0) : Type 0 where
  pub enqueues : (s : Server) (t : Task) → P s → P (enqueue t s)
  pub posts : (s : Server) (t : IoTask) → P s → P (post t s)
  pub shuts_down : (s : Server) → P s → P (async_shutdown s)
  pub runs_io :
      (s : Server) (i : ℕ) (r : BindResults) (t : IoTask)
      → Answers r
      → P s
      → P (run_io r t (record s { io_tasks = erase_idx s.io_tasks i }))
  pub runs_task :
      (s : Server) (i : ℕ) (t : Task)
      → get_elem? s.tasks i ≡ some t
      → P s
      → P (run_task verify_peer t (record s { tasks = erase_idx s.tasks i }))
  pub accepts :
      (s : Server) (i : ℕ) (token : Token) (e : ErrorCode) (socket : ℕ)
      (credentials : PeerCredentials)
      → P s
      → P (on_accept token e socket credentials (record s { accepts = erase_idx s.accepts i }))
  pub peer_emits : (s : Server) (k : Slot) (signal : Signal) → P s → P (peer_slot k signal s)
  pub closes :
      (s : Server) (i id : ℕ)
      → P s
      → P (enqueue_peer_closed id (record s { closings = erase_idx s.closings i }))
  pub times_out :
      (s : Server) (i id peer_id : ℕ) (e : ErrorCode)
      → P s
      → P (on_request_timer id peer_id e (record s { timers = erase_idx s.timers i }))
  pub probe_times_out :
      (s : Server) (i : ℕ) (k : Probe) (e : ErrorCode)
      → P s
      → P (on_probe_timer k e (record s { probe_timers = erase_idx s.probe_timers i }))
  pub probe_connects :
      (s : Server) (i : ℕ) (k : Probe) (e : ErrorCode)
      → P s
      → P (on_probe_connect k e (record s { probe_connects = erase_idx s.probe_connects i }))
  pub probe_emits : (s : Server) (k : Probe) (signal : Signal) → P s → P (probe_slot k signal s)
  pub retries : (s : Server) → P s → P (on_bind_retry s)

-- Whatever the file system answers.
abbrev pub Keeps : (PeerCredentials → Bool) → (Server → Type 0) → Type 0
Keeps verify_peer P = KeepsIf verify_peer (λ r. Unit {0}) P

abbrev pub AnswersIn : (BindResults → Type 0) → Event → Type 0
AnswersIn Answers (io_runs i r) = Answers r
AnswersIn Answers _ = Unit {0}

module _ (verify_peer : PeerCredentials → Bool) (Answers : BindResults → Type 0)
    (P : Server → Type 0) (k : KeepsIf verify_peer Answers P) where
  step-Keeps : (s : Server) (e : Event) → AnswersIn Answers e → P s → P (step verify_peer s e)
  unfolding step socket_path_health_check
  step-Keeps s async_start a v = k.enqueues s Task.start_task v
  step-Keeps s async_stop a v = k.enqueues s Task.stop_task v
  step-Keeps s async_shuts_down a v = k.shuts_down s v
  step-Keeps s (async_send id bytes) a v = k.posts s (IoTask.send_io id bytes) v
  step-Keeps s (async_respond id request_id bytes) a v =
      k.posts s (IoTask.respond_io id request_id bytes) v
  step-Keeps s (async_request id bytes timeout callback) a v =
      k.posts s (IoTask.request_io id bytes timeout callback) v
  step-Keeps s (async_request_by_default id bytes callback) a v =
      k.posts s (IoTask.request_io id bytes s.options.common_parameters.read_timeout callback) v
  step-Keeps s (async_close_peer id) a v = k.posts s (IoTask.close_peer_io id) v
  step-Keeps s (io_runs i r) a v = elim (Option-cases (get_elem? s.io_tasks i)) [
    | inl h ↦ rw (h, step) v
    | inr (t, h) ↦ rw (h, step) (k.runs_io s i r t a v)
  ]
  step-Keeps s (task_runs i) a v = elim (Option-cases (get_elem? s.tasks i)) [
    | inl h ↦ rw (h, step) v
    | inr (t, h) ↦ rw (h, step) (k.runs_task s i t h v)
  ]
  step-Keeps s (accept_completes i e socket credentials) a v =
      elim (Option-cases (get_elem? s.accepts i)) [
        | inl h ↦ rw (h, step) v
        | inr (token, h) ↦ rw (h, step) (k.accepts s i token e socket credentials v)
      ]
  step-Keeps s (peer_emits i signal) a v = elim (Option-cases (get_elem? s.slots i)) [
    | inl h ↦ rw (h, step) v
    | inr (slot, h) ↦ rw (h, step) (k.peer_emits s slot signal v)
  ]
  step-Keeps s (close_completes i) a v = elim (Option-cases (get_elem? s.closings i)) [
    | inl h ↦ rw (h, step) v
    | inr (id, h) ↦ rw (h, step) (k.closes s i id v)
  ]
  step-Keeps s (timer_fires i e) a v = elim (Option-cases (get_elem? s.timers i)) [
    | inl h ↦ rw (h, step) v
    | inr ((id, peer_id), h) ↦ rw (h, step) (k.times_out s i id peer_id e v)
  ]
  step-Keeps s (probe_timer_fires i e) a v = elim (Option-cases (get_elem? s.probe_timers i)) [
    | inl h ↦ rw (h, step) v
    | inr (probe, h) ↦ rw (h, step) (k.probe_times_out s i probe e v)
  ]
  step-Keeps s (probe_connects_done i e) a v = elim (Option-cases (get_elem? s.probe_connects i)) [
    | inl h ↦ rw (h, step) v
    | inr (probe, h) ↦ rw (h, step) (k.probe_connects s i probe e v)
  ]
  step-Keeps s (probe_emits i signal) a v = elim (Option-cases (get_elem? s.probe_slots i)) [
    | inl h ↦ rw (h, step) v
    | inr (probe, h) ↦ rw (h, step) (k.probe_emits s probe signal v)
  ]
  step-Keeps s health_check_fires a v = k.posts s (IoTask.health_check_io (capture s.scope)) v
  step-Keeps s bind_retry_fires a v = k.retries s v

  pub run-KeepsIf :
      (s : Server) (es : List Event) → All (AnswersIn Answers) es → P s → P (run verify_peer s es)
  unfolding run
  run-KeepsIf s [] a v = v
  run-KeepsIf s (e ∷ es) a v = run-KeepsIf (step verify_peer s e) es a.1 (step-Keeps s e a.0 v)

all_answers : (es : List Event) → All (AnswersIn (λ r. Unit {0})) es
all_answers [] = tt
all_answers (io_runs i r ∷ es) = (tt, all_answers es)
all_answers (e ∷ es) = (tt, all_answers es)

pub run-Keeps :
    (verify_peer : PeerCredentials → Bool) (P : Server → Type 0)
    → Keeps verify_peer P
    → (s : Server) (es : List Event) → P s
    → P (run verify_peer s es)
run-Keeps verify_peer P k s es v =
    run-KeepsIf verify_peer (λ r. Unit {0}) P k s es (all_answers es) v
