-- ===== src/Tests/Protocol.antt =====
-- impl/protocol.hpp, impl/notification_scope.hpp, impl/request_manager.hpp and impl/runtime.hpp on
-- concrete inputs.
use cpp_unix_domain_stream.Prelude.{
  ℕ, ◌+◌, ◌^◌, ◌≡◌, refl, List, [], ◌∷◌, none, some, count, ◌==◌, arith, ◌&&◌, ◌%◌, success,
  operation_aborted, connection_reset, ◌++◌, filterb, not, is_this, true, false,
}
use cpp_unix_domain_stream.Protocol.{encode_uint32, decode_uint32, encode_uint64, decode_uint64}
use cpp_unix_domain_stream.Protocol.RoundTrip.{
  decode_uint32-encode_uint32, decode_uint64-encode_uint64,
}
use cpp_unix_domain_stream.NotificationScope.{NotificationScope, is_current, capture, deliver}
use cpp_unix_domain_stream.NotificationScope.Cancellation
use cpp_unix_domain_stream.NotificationScope.Cancellation.{
  ScopeCall, starts, stops, invalidates, cancels, is_current-calls, deliver_cancelled,
}
use cpp_unix_domain_stream.RequestManager.{RequestManager, complete, complete_peer, on_timer}
use cpp_unix_domain_stream.RequestManager.Calls
use cpp_unix_domain_stream.RequestManager.Calls.{
  ManagerCall, adds, completes, completes_of_peer, completes_peer, completes_all, timer_fires,
}
use cpp_unix_domain_stream.RequestManager.Accounting.{
  owed, registered, failures, owed-calls, complete_peer_lem, complete_once,
}
use cpp_unix_domain_stream.Runtime.{Runtime, owner_of}
use cpp_unix_domain_stream.Runtime.Ownership.{
  Use, takes, clears, cleans, performs, owner_after, owner_of-performs, performs_spare,
}

decode_uint32-encode_uint32_example : decode_uint32 (encode_uint32 305419896) ≡ 305419896
decode_uint32-encode_uint32_example = decode_uint32-encode_uint32 305419896 (omega arith)

decode_uint64-encode_uint64_example :
    decode_uint64 (4 ∷ (encode_uint64 4886718345 ++ (7 ∷ []))) 1 ≡ 4886718345
decode_uint64-encode_uint64_example =
    decode_uint64-encode_uint64 4886718345 4 (7 ∷ []) (omega arith)

-- A scope that runs, is invalidated, stopped and started again.
abbrev running_scope : NotificationScope
running_scope = record { running = true; generation = 3 }

abbrev restart : List ScopeCall
restart = invalidates ∷ stops ∷ starts ∷ []

is_current-calls_example :
    is_current (Cancellation.calls running_scope restart) (capture running_scope)
    ≡ ((Cancellation.calls running_scope restart).running && (cancels restart % 2 ^ 64 == 0))
is_current-calls_example = is_current-calls running_scope restart (omega arith)

abbrev note : List ℕ → List ℕ
note xs = 1 ∷ xs

deliver_cancelled_example :
    deliver (Cancellation.calls running_scope restart) (capture running_scope) note [] ≡ []
deliver_cancelled_example =
    deliver_cancelled running_scope restart note [] (omega arith) (omega arith) (omega arith)

-- Two requests wait, of peers 8 and 9.
abbrev two_requests : RequestManager
two_requests = record {
  next_request_id = 2;
  pending_requests =
      (2, record { peer_id_value = some 9; callback = 51; timer = 2 })
      ∷ (1, record { peer_id_value = some 8; callback = 50; timer = 1 })
      ∷ [];
  completions = [];
  cancelled_timers = [];
}

-- A third request is registered, answered, answered again, and the rest time out or fail.
abbrev history : List ManagerCall
history =
    adds (some 8) 52
    ∷ completes_of_peer 8 3 success (some (7 ∷ []))
    ∷ completes_of_peer 8 3 success (some (7 ∷ []))
    ∷ timer_fires 1 success
    ∷ completes_peer 9 connection_reset
    ∷ completes_all operation_aborted
    ∷ []

owed-calls_example :
    owed 52 (Calls.calls two_requests history) ≡ registered 52 history + owed 52 two_requests
owed-calls_example =
    owed-calls 52 two_requests history (omega arith, (omega arith, tt)) (omega arith)

complete_peer_lem_example :
    ((complete_peer 9 connection_reset two_requests).pending_requests
      ≡ filterb (λ x. not (is_this x.1.peer_id_value 9)) two_requests.pending_requests)
    × ((complete_peer 9 connection_reset two_requests).completions
        ≡ two_requests.completions
          ++ failures connection_reset
              (filterb (λ x. is_this x.1.peer_id_value 9) two_requests.pending_requests))
complete_peer_lem_example = complete_peer_lem 9 connection_reset two_requests

complete_once_example :
    let m' = complete 1 success (some (7 ∷ [])) two_requests in
    (on_timer 1 success m' ≡ (m', false)) × (complete 1 success none m' ≡ m')
complete_once_example =
    complete_once 1 success success (some (7 ∷ [])) none two_requests
      (omega arith, (omega arith, tt))

-- Server 1 owns path 5.
abbrev owned : Runtime
owned = record { socket_file_path_owners = (5, 1) ∷ []; removed = 5 ∷ [] }

-- Server 2 takes path 6 and both paths are cleaned up by it.
abbrev others : List Use
others = clears 6 6 ∷ takes 6 2 ∷ cleans 5 2 ∷ cleans 6 2 ∷ []

owner_of-performs_example :
    owner_of 5 (performs owned others).socket_file_path_owners
    ≡ owner_after 5 others (owner_of 5 owned.socket_file_path_owners)
owner_of-performs_example = owner_of-performs 5 owned others

performs_spare_example :
    (owner_of 5 (performs owned others).socket_file_path_owners ≡ some 1)
    × (count (λ q. q == 5) (performs owned others).removed ≡ count (λ q. q == 5) owned.removed)
performs_spare_example = performs_spare 5 1 owned others (unfold owner_of in refl) (
  (λ h. omega (arith, h), λ h. omega (arith, h)),
  (λ h. omega (arith, h), (λ h. omega (arith, h), (λ h. omega (arith, h), tt))),
)
