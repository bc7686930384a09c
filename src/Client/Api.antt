-- ===== src/Client/Api.antt =====
-- client.hpp, `client_state`: the calls that the owner of a client makes, from any thread.
use cpp_unix_domain_stream.Prelude.{ℕ, List}
use cpp_unix_domain_stream.Client.State.{
  Client, start_task, stop_task, invalidate_task, send_io, respond_io, request_io, post, enqueue,
}

abbrev pub async_start : Client → Client
async_start c = enqueue start_task c

abbrev pub async_stop : Client → Client
async_stop c = enqueue stop_task c

abbrev pub async_invalidate_connection : Client → Client
async_invalidate_connection c = enqueue invalidate_task c

abbrev pub async_send : List ℕ → Client → Client
async_send bytes c = post (send_io bytes) c

abbrev pub async_respond : ℕ → List ℕ → Client → Client
async_respond id bytes c = post (respond_io id bytes) c

-- The data, the timeout and the callback.
abbrev pub async_request : List ℕ → ℕ → ℕ → Client → Client
async_request bytes timeout callback c = post (request_io bytes timeout callback) c

-- The overload without a timeout.
abbrev pub async_request_by_default : List ℕ → ℕ → Client → Client
async_request_by_default bytes callback c =
    async_request bytes c.options.common_parameters.read_timeout callback c
