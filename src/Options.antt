-- ===== src/Options.antt =====
-- options.hpp: the option structs with their default values, and the minimum scheduling interval.
-- Times are whole milliseconds; a negative `std::chrono::milliseconds` is not modelled.
use cpp_unix_domain_stream.Prelude.{ℕ, ◌*◌, Bool, true, ltb, if◌then◌else◌}

unfoldable pub normalize_scheduling_interval : ℕ → ℕ
normalize_scheduling_interval value = if ltb value 100 then 100 else value

-- `common_options::parameters`
pub record CommonParameters : Type 0 where
  pub max_message_size : ℕ
  pub max_send_queue_size : ℕ
  pub heartbeat_interval : ℕ
  pub heartbeat_timeout : ℕ
  pub read_timeout : ℕ
  pub write_timeout : ℕ
  pub invalidate_connection_on_request_error : Bool

abbrev pub default_common_parameters : CommonParameters
default_common_parameters = record {
  max_message_size = 32 * 1024;
  max_send_queue_size = 1024;
  heartbeat_interval = 3000;
  heartbeat_timeout = 10000;
  read_timeout = 5000;
  write_timeout = 5000;
  invalidate_connection_on_request_error = true;
}

-- `client_options`
pub record ClientOptions : Type 0 where
  pub common_parameters : CommonParameters
  pub reconnect_interval : ℕ

-- `server_options`
pub record ServerOptions : Type 0 where
  pub common_parameters : CommonParameters
  pub bind_retry_interval : ℕ
  pub socket_path_health_check_interval : ℕ
  pub socket_path_health_check_timeout : ℕ

abbrev pub client_options : CommonParameters → ClientOptions
client_options c = record { common_parameters = c; reconnect_interval = 1000 }

abbrev pub server_options : CommonParameters → ServerOptions
server_options c = record {
  common_parameters = c;
  bind_retry_interval = 1000;
  socket_path_health_check_interval = 3000;
  socket_path_health_check_timeout = 1000;
}
