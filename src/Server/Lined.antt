-- ===== src/Server/Lined.antt =====
-- server.hpp: the messages of one peer, from its slots through the dispatcher to the user.
use cpp_unix_domain_stream.Prelude.{
  ℕ, ◌≡◌, refl, ap, Bool, false, some, List, [], ◌∷◌, ◌++◌, ◌⊎◌, inl, inr, ◌==◌, if◌then◌else◌,
  filterb, filterb-append, concat_map, concat_map-last, get_elem?, erase_idx, arith,
}
use mathlib.Core.List.{append_assoc, Sublist, sublist-append_left, sublist-append_right}
use mathlib.Core.List.Sublist
use cpp_unix_domain_stream.Credentials.{PeerCredentials}
use cpp_unix_domain_stream.NotificationScope.{deliver}
use cpp_unix_domain_stream.Peer.State.{Signal}
use cpp_unix_domain_stream.Server.State.{Server, ServerSignal, Slot, Notice, Task, IoTask, post}
use cpp_unix_domain_stream.Server.Acceptor.{bind, schedule_bind_retry}
use cpp_unix_domain_stream.Server.Peers.{peer_slot, enqueue_peer_closed, notify_peer_closed}
use cpp_unix_domain_stream.Server.HealthCheck.{start_socket_path_health_check_timer}
use cpp_unix_domain_stream.Server.Tasks.{run_task, run_notice, stop, if_exposed}
use cpp_unix_domain_stream.Server.Growth.{emission, run_task-signals}
use cpp_unix_domain_stream.Server.Quiet.{peer_slot-Quiet}
use cpp_unix_domain_stream.Server.Line.{message_in, waiting, Calm, waiting-enqueue}

-- Whether the signal is a message, a request or an error of the peer with that id.
abbrev pub is_from : ℕ → ServerSignal → Bool
is_from id (ServerSignal.received k bytes) = k == id
is_from id (ServerSignal.request_received k request_id bytes) = k == id
is_from id (ServerSignal.peer_error_occurred k e) = k == id
is_from id _ = false

abbrev pub told : ℕ → Server → List ServerSignal
told id s = filterb (is_from id) s.signals

-- What a peer's signal is to the user.
abbrev pub spoken : ℕ → Slot → Signal → List ServerSignal
spoken id k (Signal.received bytes) =
    if k.id == id then ServerSignal.received k.id bytes ∷ [] else []
spoken id k (Signal.request_received request_id bytes) =
    if k.id == id then ServerSignal.request_received k.id request_id bytes ∷ [] else []
spoken id k (Signal.error_occurred e) =
    if k.id == id then ServerSignal.peer_error_occurred k.id e ∷ [] else []
spoken id k _ = []

first-erase_idx {ℓ} :
    {A : Type ℓ} (xs : List A) (x : A) → get_elem? xs 0 ≡ some x → xs ≡ x ∷ erase_idx xs 0
first-erase_idx [] x h = absurd cc
first-erase_idx (y ∷ ys) x h = cc

run_task-tasks :
    (verify_peer : PeerCredentials → Bool) (t : Task) (s : Server)
    → (run_task verify_peer t s).tasks ≡ s.tasks
unfolding run_task run_notice deliver bind stop if_exposed notify_peer_closed schedule_bind_retry
    start_socket_path_health_check_timer
run_task-tasks verify_peer t s = ground arith

filterb-emission : (id : ℕ) (t : Task) → filterb (is_from id) (emission t ∷ []) ≡ message_in id t
filterb-emission id t = ground arith

module _ (id : ℕ) (past : List ServerSignal) where
  -- What the user was told of the peer, and then what waits, is what the peer said, with gaps.
  abbrev pub Lined : Server → Type 0
  Lined s = Sublist (told id s ++ waiting id s) past

  pub same-Lined : (s t : Server) → t.signals ≡ s.signals → Calm id s t → Lined s → Lined t
  same-Lined s t h c v = rw (h, c) v

  pub drop-Lined : (s t : Server) → t.signals ≡ s.signals → waiting id t ≡ [] → Lined s → Lined t
  drop-Lined s t h c v =
      rw (h, c)
        (Sublist.trans
          (Sublist.append (Sublist.refl (told id s)) (sublist-append_left [] (waiting id s))) v)

  pub task-Lined :
      (verify_peer : PeerCredentials → Bool) (x : Task) (s : Server)
      → get_elem? s.tasks 0 ≡ some x
      → Lined s
      → Lined (run_task verify_peer x (record s { tasks = erase_idx s.tasks 0 }))
  task-Lined verify_peer x s h v =
      let u = record s { tasks = erase_idx s.tasks 0 } in
      let t = run_task verify_peer x u in
      let w = ap (concat_map (message_in id)) (run_task-tasks verify_peer x u) in
      let g = ap (concat_map (message_in id)) (first-erase_idx s.tasks x h) in
      elim (run_task-signals verify_peer x u) [
        | inl k ↦
            rw (k, w)
              (Sublist.trans
                (Sublist.append (Sublist.refl (told id s))
                  (sublist-append_right (message_in id x) (waiting id u)))
                (rw⁻¹ g v))
        | inr k ↦
            rw
              (
                k,
                w,
                filterb-append (is_from id) s.signals (emission x ∷ []),
                filterb-emission id x,
                append_assoc (told id s) (message_in id x) (waiting id u),
              )
              (rw⁻¹ g v)
      ]

peer_slot-waiting :
    (id : ℕ) (k : Slot) (signal : Signal) (s : Server)
    → (waiting id (peer_slot k signal s) ≡ waiting id s ++ spoken id k signal)
      ⊎ (waiting id (peer_slot k signal s) ≡ waiting id s)
unfolding peer_slot enqueue_peer_closed
peer_slot-waiting id k (Signal.received bytes) s =
    ground (arith, concat_map-last (message_in id) s.tasks (Task.received_task k.id bytes))
peer_slot-waiting id k (Signal.request_received request_id bytes) s = ground (
  arith,
  concat_map-last (message_in id) s.tasks (Task.request_received_task k.id request_id bytes),
)
peer_slot-waiting id k (Signal.error_occurred e) s =
    ground (arith, concat_map-last (message_in id) s.tasks (Task.error_task k.id e))
peer_slot-waiting id k Signal.ready s =
    inr (waiting-enqueue id (Task.scoped k.token (Notice.verify k.id k.credentials)) s refl)
peer_slot-waiting id k Signal.closed s =
    inr (waiting-enqueue id (Task.peer_closed_task k.id) (post (IoTask.closed_io k.id) s) refl)
peer_slot-waiting id k (Signal.response_received request_id bytes) s = inr refl
peer_slot-waiting id k Signal.health_check_response_received s = inr refl

module _ (id : ℕ) (past : List ServerSignal) where
  pub more-Lined :
      (s : Server) (more : List ServerSignal) → Lined id past s → Lined id (past ++ more) s
  more-Lined s more v = Sublist.trans v (sublist-append_left past more)

  pub slot-Lined :
      (k : Slot) (signal : Signal) (s : Server)
      → Lined id past s
      → Lined id (past ++ spoken id k signal) (peer_slot k signal s)
  slot-Lined k signal s v =
      let t = peer_slot k signal s in
      let h = (peer_slot-Quiet k signal s).1 in
      elim (peer_slot-waiting id k signal s) [
        | inl w ↦
            rw (h, w)
              (rw⁻¹ (append_assoc (told id s) (waiting id s) (spoken id k signal))
                (Sublist.append v (Sublist.refl (spoken id k signal))))
        | inr w ↦ rw (h, w) (more-Lined s (spoken id k signal) v)
      ]
