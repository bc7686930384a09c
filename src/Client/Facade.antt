-- ===== src/Client/Facade.antt =====
-- client.hpp, the public class `client`: it owns a `client_state`, which outlives it, and forwards to it.
use cpp_unix_domain_stream.Prelude.{ℕ, List}
use cpp_unix_domain_stream.Options.{ClientOptions}
use cpp_unix_domain_stream.Client.State.{Client, new_client}
use cpp_unix_domain_stream.Client.Tasks
use cpp_unix_domain_stream.Client.Api

pub record ClientObject : Type 0 where
  pub state : Client

abbrev pub make_client : ClientOptions → ClientObject
make_client options = record { state = new_client options }

-- The destructor. What is left is the state, which queued functions keep alive.
abbrev pub destroy_client : ClientObject → Client
destroy_client o = Tasks.async_shutdown o.state

abbrev pub async_start : ClientObject → ClientObject
async_start o = record { state = Api.async_start o.state }

abbrev pub async_stop : ClientObject → ClientObject
async_stop o = record { state = Api.async_stop o.state }

abbrev pub async_invalidate_connection : ClientObject → ClientObject
async_invalidate_connection o = record { state = Api.async_invalidate_connection o.state }

abbrev pub async_send : List ℕ → ClientObject → ClientObject
async_send bytes o = record { state = Api.async_send bytes o.state }

abbrev pub async_respond : ℕ → List ℕ → ClientObject → ClientObject
async_respond id bytes o = record { state = Api.async_respond id bytes o.state }

abbrev pub async_request_by_default : List ℕ → ℕ → ClientObject → ClientObject
async_request_by_default bytes callback o = record {
  state = Api.async_request_by_default bytes callback o.state;
}

abbrev pub async_request : List ℕ → ℕ → ℕ → ClientObject → ClientObject
async_request bytes timeout callback o = record {
  state = Api.async_request bytes timeout callback o.state;
}
