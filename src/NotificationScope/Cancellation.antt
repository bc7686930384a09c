-- ===== src/NotificationScope/Cancellation.antt =====
-- impl/notification_scope.hpp: histories of start, stop and invalidate calls.
use cpp_unix_domain_stream.Prelude.{
  ℕ, suc, ◌+◌, ◌%◌, ◌^◌, ◌<◌, ◌≡◌, ◌&&◌, List, [], ◌∷◌, ◌==◌, arith,
}
use cpp_unix_domain_stream.NotificationScope.{
  NotificationScope, start, stop, invalidate, capture, is_current, deliver,
}

pub data ScopeCall : Type 0 where
  starts stops invalidates : ScopeCall

unfoldable pub call : NotificationScope → ScopeCall → NotificationScope
unfolding start stop invalidate
call s starts = start s
call s stops = stop s
call s invalidates = invalidate s

unfoldable pub calls : NotificationScope → List ScopeCall → NotificationScope
unfolding call
calls s [] = s
calls s (c ∷ cs) = calls (call s c) cs

-- How many calls cancel the current group.
abbrev pub cancels : List ScopeCall → ℕ
cancels [] = 0
cancels (starts ∷ cs) = cancels cs
cancels (stops ∷ cs) = suc (cancels cs)
cancels (invalidates ∷ cs) = suc (cancels cs)

generation-calls :
    (s : NotificationScope) (cs : List ScopeCall)
    → s.generation < 2 ^ 64
    → (calls s cs).generation ≡ (s.generation + cancels cs) % 2 ^ 64
unfolding calls
generation-calls s [] h = omega arith
generation-calls s (starts ∷ cs) h = generation-calls (call s starts) cs h
generation-calls s (stops ∷ cs) h = omega (arith, generation-calls (call s stops) cs (omega arith))
generation-calls s (invalidates ∷ cs) h =
    omega (arith, generation-calls (call s invalidates) cs (omega arith))

-- After any history of a scope whose generation is below 2^64, a token captured before it is current
-- exactly when the scope runs and the number of stops and invalidations in between is a multiple of 2^64.
pub is_current-calls :
    (s : NotificationScope) (cs : List ScopeCall)
    → s.generation < 2 ^ 64
    → is_current (calls s cs) (capture s) ≡ ((calls s cs).running && (cancels cs % 2 ^ 64 == 0))
unfolding is_current capture
is_current-calls s cs h = ground (arith, generation-calls s cs h)

-- A notification captured in a scope whose generation is below 2^64, before at least one and fewer
-- than 2^64 stops and invalidations, does nothing when it runs, whatever was started in between.
pub deliver_cancelled {ℓ} :
    {A : Type ℓ} (s : NotificationScope) (cs : List ScopeCall) (function : A → A) (a : A)
    → s.generation < 2 ^ 64
    → 0 < cancels cs
    → cancels cs < 2 ^ 64
    → deliver (calls s cs) (capture s) function a ≡ a
unfolding deliver is_current capture
deliver_cancelled s cs function a h p q = ground (arith, generation-calls s cs h)
