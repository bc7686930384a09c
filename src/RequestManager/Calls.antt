-- ===== src/RequestManager/Calls.antt =====
-- The calls of impl/request_manager.hpp as data, and histories of them.
use cpp_unix_domain_stream.Prelude.{ℕ, Option, List, [], ◌∷◌, ErrorCode}
use cpp_unix_domain_stream.RequestManager.{
  RequestManager, add, complete, complete_of_peer, complete_peer, complete_all, on_timer,
}

pub data ManagerCall : Type 0 where
  adds : Option ℕ → ℕ → ManagerCall
  completes : ℕ → ErrorCode → Option (List ℕ) → ManagerCall
  completes_of_peer : ℕ → ℕ → ErrorCode → Option (List ℕ) → ManagerCall
  completes_peer : ℕ → ErrorCode → ManagerCall
  completes_all : ErrorCode → ManagerCall
  timer_fires : ℕ → ErrorCode → ManagerCall

unfoldable pub call : RequestManager → ManagerCall → RequestManager
call m (adds peer callback) = (add peer callback m).0
call m (completes id e body) = complete id e body m
call m (completes_of_peer peer id e body) = complete_of_peer peer id e body m
call m (completes_peer peer e) = complete_peer peer e m
call m (completes_all e) = complete_all e m
call m (timer_fires id e) = (on_timer id e m).0

unfoldable pub calls : RequestManager → List ManagerCall → RequestManager
calls m [] = m
calls m (c ∷ cs) = calls (call m c) cs
