-- ===== src/Server/Api.antt =====
-- server.hpp, `server_state`: the calls that the owner of a server makes, from any thread.
use cpp_unix_domain_stream.Prelude.{ℕ, List}
use cpp_unix_domain_stream.Server.State.{
  Server, start_task, stop_task, send_io, respond_io, request_io, close_peer_io, post, enqueue,
}

abbrev pub async_start : Server → Server
async_start s = enqueue start_task s

abbrev pub async_stop : Server → Server
async_stop s = enqueue stop_task s

abbrev pub async_send : ℕ → List ℕ → Server → Server
async_send id bytes s = post (send_io id bytes) s

abbrev pub async_respond : ℕ → ℕ → List ℕ → Server → Server
async_respond id request_id bytes s = post (respond_io id request_id bytes) s

-- The peer's id, the data, the timeout and the callback.
abbrev pub async_request : ℕ → List ℕ → ℕ → ℕ → Server → Server
async_request id bytes timeout callback s = post (request_io id bytes timeout callback) s

-- The overload without a timeout.
abbrev pub async_request_by_default : ℕ → List ℕ → ℕ → Server → Server
async_request_by_default id bytes callback s =
    async_request id bytes s.options.common_parameters.read_timeout callback s

abbrev pub async_close_peer : ℕ → Server → Server
async_close_peer id s = post (close_peer_io id) s
