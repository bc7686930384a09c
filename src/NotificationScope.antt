-- ===== src/NotificationScope.antt =====
-- impl/notification_scope.hpp: the lifetime of a group of notifications. `running_` and `generation_`
-- are the state; a token is a generation. `generation_` is a uint64_t.
-- What `enqueue` hands to the dispatcher is a task; `deliver` is what the task does when it runs.
pub mod Cancellation
use cpp_unix_domain_stream.Prelude.{ℕ, ◌+◌, ◌%◌, ◌^◌, Bool, true, false, ◌&&◌, ◌==◌, if◌then◌else◌}

pub record NotificationScope : Type 0 where
  pub running : Bool
  pub generation : ℕ

abbrev pub Token : Type 0
Token = ℕ

unfoldable pub initial_scope : NotificationScope
initial_scope = record { running = false; generation = 0 }

unfoldable pub start : NotificationScope → NotificationScope
start s = record s { running = true }

unfoldable pub invalidate : NotificationScope → NotificationScope
invalidate s = record s { generation = (s.generation + 1) % 2 ^ 64 }

unfoldable pub stop : NotificationScope → NotificationScope
unfolding invalidate
stop s = invalidate (record s { running = false })

unfoldable pub capture : NotificationScope → Token
capture s = s.generation

unfoldable pub is_current : NotificationScope → Token → Bool
is_current s value = s.running && s.generation == value

-- The task of `enqueue`: `function` on the owner's state if the token is still current.
unfoldable pub deliver {ℓ} : {A : Type ℓ} → NotificationScope → Token → (A → A) → A → A
unfolding is_current
deliver s value function a = if is_current s value then function a else a
