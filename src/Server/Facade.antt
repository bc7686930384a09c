-- ===== src/Server/Facade.antt =====
-- server.hpp, the public class `server`: it owns a `server_state`, which outlives it, and forwards to it.
use cpp_unix_domain_stream.Prelude.{ℕ, List}
use cpp_unix_domain_stream.Options.{ServerOptions}
use cpp_unix_domain_stream.Runtime.{Runtime}
use cpp_unix_domain_stream.Server.State.{Server, new_server}
use cpp_unix_domain_stream.Server.Tasks
use cpp_unix_domain_stream.Server.Api

pub record ServerObject : Type 0 where
  pub state : Server

-- The server's name in the runtime, its path, its options and the runtime.
abbrev pub make_server : ℕ → ℕ → ServerOptions → Runtime → ServerObject
make_server self path options runtime = record { state = new_server self path options runtime }

-- The destructor. What is left is the state, which queued functions keep alive.
abbrev pub destroy_server : ServerObject → Server
destroy_server o = Tasks.async_shutdown o.state

abbrev pub async_start : ServerObject → ServerObject
async_start o = record { state = Api.async_start o.state }

abbrev pub async_stop : ServerObject → ServerObject
async_stop o = record { state = Api.async_stop o.state }

abbrev pub async_send : ℕ → List ℕ → ServerObject → ServerObject
async_send id bytes o = record { state = Api.async_send id bytes o.state }

abbrev pub async_respond : ℕ → ℕ → List ℕ → ServerObject → ServerObject
async_respond id request_id bytes o = record {
  state = Api.async_respond id request_id bytes o.state;
}

abbrev pub async_request_by_default : ℕ → List ℕ → ℕ → ServerObject → ServerObject
async_request_by_default id bytes callback o = record {
  state = Api.async_request_by_default id bytes callback o.state;
}

abbrev pub async_request : ℕ → List ℕ → ℕ → ℕ → ServerObject → ServerObject
async_request id bytes timeout callback o = record {
  state = Api.async_request id bytes timeout callback o.state;
}

abbrev pub async_close_peer : ℕ → ServerObject → ServerObject
async_close_peer id o = record { state = Api.async_close_peer id o.state }
