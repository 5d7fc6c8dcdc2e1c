-- ===== src/Auth/RateLimit.antt =====
-- guards/rate-limit.guard.ts: a counter in Redis for an address and a handler.
use water_credits_backend.Prelude.{
  ℕ, ◌+◌, Bool, true, Option, none, some, ltb, ◌==◌, if◌then◌else◌, ok, err, too_many_requests,
  Action,
}

pub record Counter : Type 0 where
  pub count : ℕ
  pub expires_at : ℕ

-- @RateLimit(maxRequests, windowMs)
pub record RateLimit : Type 0 where
  pub max_requests : ℕ
  pub window_ms : ℕ

-- The counters by their key, which numbers `rl:<ip>:<handler>`.
abbrev pub Counters : Type 0
Counters = ℕ → Option Counter

-- INCR, and PEXPIRE where the counter is new.
abbrev pub incremented : ℕ → ℕ → Option Counter → Counter
incremented now window_ms none = record { count = 1; expires_at = now + window_ms }
incremented now window_ms (some c) =
    if ltb now c.expires_at
    then record c { count = c.count + 1 }
    else record { count = 1; expires_at = now + window_ms }

abbrev pub put_counter : ℕ → Counter → Counters → Counters
put_counter key c counters k = if k == key then some c else counters k

-- `limit` is none for a handler without the decorator; an unavailable Redis lets the request pass.
unfoldable pub can_activate :
    (now : ℕ) (available : Bool) (limit : Option RateLimit) (key : ℕ) → Action Counters Bool
can_activate now available none key counters = (ok true, counters)
can_activate now available (some limit) key counters =
    let c = incremented now limit.window_ms (counters key) in
    if available
    then (
      if ltb limit.max_requests c.count then err too_many_requests else ok true,
      put_counter key c counters,
    )
    else (ok true, counters)
