-- ===== src/Debounce.antt =====
-- client.hpp and server.hpp: `reconnect_task_` and `bind_retry_task_`, which are debounced tasks of the
-- dispatcher. The task's class is not under include/. What the library relies on is a condition on the
-- times of the events (`keeps_time`): the function runs only when a wait was begun, neither cancelled nor
-- replaced by another nor used up by an earlier run, and its delay has passed.
use cpp_unix_domain_stream.Prelude.{
  ℕ, ◌+◌, ◌*◌, ◌≡◌, ◌≤◌, refl, zero, suc, Bool, true, false, not, ◌&&◌, ◌||◌, Option, none, some,
  List, [], ◌∷◌, leb, if◌then◌else◌, length, drop, All, map, count, arith, ◌⊎◌, inl, inr,
}

-- What a call is to the task: `debounce_after` with its delay, `cancel`, or another object's call.
pub data Wait : Type 0 where
  begins : ℕ → Wait
  ends other_call : Wait

-- `n` runs since the time `from`, and the next one is not before another 100 ms, the first excepted.
abbrev IsSpaced : ℕ → ℕ → ℕ → Option ℕ → Type 0
IsSpaced from n now none = Unit {0}
IsSpaced from n now (some due) = (100 * n + from ≤ due) ⊎ (100 * n + from ≤ now)

abbrev is_due : ℕ → Option ℕ → Bool
is_due now none = false
is_due now (some due) = leb due now

-- An event with the milliseconds that have passed since the event before it.
module _ {E : Type 0} where
  abbrev pub elapsed : List (ℕ × E) → ℕ
  elapsed [] = 0
  elapsed ((delay, e) ∷ es) = delay + elapsed es

  abbrev pub events : List (ℕ × E) → List E
  events es = map (λ e. e.1) es

All-drop {ℓ κ} : {A : Type ℓ} (P : A → Type κ) (n : ℕ) (xs : List A) → All P xs → All P (drop n xs)
All-drop P zero xs a = a
All-drop P (suc n) [] a = a
All-drop P (suc n) (x ∷ xs) a = All-drop P n xs a.1

abbrev next_due : ℕ → Wait → Option ℕ → Option ℕ
next_due now (begins n) due = some (now + n)
next_due now ends due = none
next_due now other_call due = due

-- A wait that begins is of 100 ms at least.
abbrev pub IsLongWait : Wait → Type 0
IsLongWait (begins n) = 100 ≤ n
IsLongWait _ = Unit {0}

next_due-IsSpaced :
    (from n now : ℕ) (w : Wait) (due : Option ℕ)
    → 100 * n + from ≤ now + 100
    → IsLongWait w
    → IsSpaced from n now due
    → IsSpaced from n now (next_due now w due)
next_due-IsSpaced from n now (begins m) due h l v = inl (omega arith)
next_due-IsSpaced from n now ends due h l v = tt
next_due-IsSpaced from n now other_call due h l v = v

is_due-IsSpaced :
    (from n now delay : ℕ) (due : Option ℕ)
    → IsSpaced from n now due
    → is_due (now + delay) due ≡ true
    → 100 * n + from ≤ now + delay
is_due-IsSpaced from n now delay none v k = ground arith
is_due-IsSpaced from n now delay (some due) (inl v) k = ground arith
is_due-IsSpaced from n now delay (some due) (inr v) k = omega arith

both : (a b : Bool) → (a && b) ≡ true → (a ≡ true) × (b ≡ true)
both true b h = (refl, h)
both false b h = (h, ground arith)

first-IsSpaced : (now : ℕ) (due : Option ℕ) → IsSpaced now 0 now due
first-IsSpaced now none = tt
first-IsSpaced now (some due) = inr (omega arith)

abbrev fired : Bool → ℕ
fired b = if b then 1 else 0

fire-IsSpaced :
    (b : Bool) (from n now delay : ℕ) (due : Option ℕ)
    → 100 * n + from ≤ now + 100
    → IsSpaced from n now due
    → (not b || is_due (now + delay) due) ≡ true
    → (100 * (n + fired b) + from ≤ (now + delay) + 100)
      × IsSpaced from (n + fired b) (now + delay) (if b then none else due)
fire-IsSpaced true from n now delay due h v k =
    let r = is_due-IsSpaced from n now delay due v k in (omega arith, tt)
fire-IsSpaced false from n now delay none h v k = (omega arith, tt)
fire-IsSpaced false from n now delay (some due) h (inl v) k = (omega arith, inl (omega arith))
fire-IsSpaced false from n now delay (some due) h (inr v) k = (omega arith, inr (omega arith))

module _ {S E C : Type 0} (step : S → E → S) (calls : S → List C) (wait_of : C → Wait)
    (is_fire : E → Bool) where
  -- When the pending wait is due, after calls at the time `now`.
  abbrev pub due_after : ℕ → List C → Option ℕ → Option ℕ
  due_after now [] due = due
  due_after now (k ∷ ks) due = due_after now ks (next_due now (wait_of k) due)

  -- The times of `es`, from the time `now`, are those of a debounced task.
  abbrev pub keeps_time : S → ℕ → Option ℕ → List (ℕ × E) → Bool
  keeps_time s now due [] = true
  keeps_time s now due ((delay, e) ∷ es) =
      (not (is_fire e) || is_due (now + delay) due)
      && keeps_time (step s e) (now + delay)
          (due_after (now + delay) (drop (length (calls s)) (calls (step s e)))
            (if is_fire e then none else due))
          es

  abbrev pub IsLong : C → Type 0
  IsLong k = IsLongWait (wait_of k)

  due_after-IsSpaced :
      (from n now : ℕ) (ks : List C) (due : Option ℕ)
      → 100 * n + from ≤ now + 100
      → All IsLong ks
      → IsSpaced from n now due
      → IsSpaced from n now (due_after now ks due)
  due_after-IsSpaced from n now [] due h a v = v
  due_after-IsSpaced from n now (k ∷ ks) due h a v =
      due_after-IsSpaced from n now ks (next_due now (wait_of k) due) h a.1
        (next_due-IsSpaced from n now (wait_of k) due h a.0 v)

  module _ (P : S → Type 0) (kept : (s : S) (e : E) → P s → P (step s e))
      (long : (s : S) → P s → All IsLong (calls s)) where
    apart_from :
        (from n now : ℕ) (s : S) (due : Option ℕ) (es : List (ℕ × E))
        → P s
        → 100 * n + from ≤ now + 100
        → IsSpaced from n now due
        → keeps_time s now due es ≡ true
        → 100 * (n + count is_fire (events es)) + from ≤ (now + elapsed es) + 100
    apart_from from n now s due [] p h v k = omega arith
    apart_from from n now s due ((delay, e) ∷ es) p h v k =
        let q = kept s e p in
        let t = step s e in
        let added = drop (length (calls s)) (calls t) in
        let (k0, k1) =
          both (not (is_fire e) || is_due (now + delay) due)
            (keeps_time t (now + delay)
              (due_after (now + delay) added (if is_fire e then none else due)) es)
            k in
        let (h1, v1) = fire-IsSpaced (is_fire e) from n now delay due h v k0 in
        let ih =
          apart_from from (n + fired (is_fire e)) (now + delay) t
            (due_after (now + delay) added (if is_fire e then none else due)) es q h1
            (due_after-IsSpaced from (n + fired (is_fire e)) (now + delay) added
              (if is_fire e then none else due) h1
              (All-drop IsLong (length (calls s)) (calls t) (long t q)) v1)
            k1 in
        ground (arith, ih)

    -- From any state and with any pending wait, the function runs once at most, and once more for
    -- each 100 ms that pass.
    pub fires_apart :
        (s : S) (now : ℕ) (due : Option ℕ) (es : List (ℕ × E))
        → P s
        → keeps_time s now due es ≡ true
        → 100 * count is_fire (events es) ≤ elapsed es + 100
    fires_apart s now due es p k =
        let r = apart_from now 0 now s due es p (omega arith) (first-IsSpaced now due) k in
        omega arith
