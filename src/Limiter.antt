-- ===== src/Limiter.antt =====
-- The rate limiter of src/earth2_sandbox/api/http/middleware/security.py. Time is that of `monotonic()`,
-- as a number of microseconds, and it never goes back: `now` is never before the start of a
-- window. The dictionary of windows is a function of its keys, a client and a route. `check`
-- holds the lock, so it is one function of the state.
pub mod Bounds
use Prim.Native.Nat.{◌/◌}
use earth2_sandbox.Prelude.{
  ℕ, suc, ◌+◌, ◌*◌, ◌-◌, String, Bool, true, false, ◌&&◌, Option, none, some, leb, ◌==◌,
  if◌then◌else◌,
}

pub record RateLimitDecision : Type 0 where
  pub allowed : Bool
  pub retry_after_seconds : ℕ

pub record Window : Type 0 where
  pub window_start : ℕ
  pub count : ℕ

pub record InMemoryFixedWindowRateLimiter : Type 0 where
  pub capacity : ℕ
  pub window_seconds : ℕ
  pub windows : String → String → Option Window

abbrev pub microseconds : ℕ → ℕ
microseconds n = n * 1_000_000

-- `max(1, ceil(...))` of a number of seconds
abbrev pub at_least_one_second : ℕ → ℕ
at_least_one_second n =
    let rounded = (n + 999_999) / 1_000_000 in if leb 1 rounded then rounded else 1

-- `self._windows[key] = window`
abbrev pub set_window :
    String → String → Window → InMemoryFixedWindowRateLimiter → InMemoryFixedWindowRateLimiter
set_window identity route window limiter = record limiter {
  windows = λ i r. if i == identity && r == route then some window else limiter.windows i r;
}

-- `self._windows.get(key, (now, 0))`
abbrev pub window_or : Option Window → ℕ → Window
window_or none now = record { window_start = now; count = 0 }
window_or (some window) now = window

abbrev pub admission : RateLimitDecision
admission = record { allowed = true; retry_after_seconds = 0 }

unfoldable pub check :
    String
    → String
    → ℕ
    → InMemoryFixedWindowRateLimiter
    → RateLimitDecision × InMemoryFixedWindowRateLimiter
check identity route now limiter =
    let window = window_or (limiter.windows identity route) now in
    let elapsed = now - window.window_start in
    if leb (microseconds limiter.window_seconds) elapsed
    then (admission, set_window identity route (record { window_start = now; count = 1 }) limiter)
    else if leb limiter.capacity window.count
    then (
      record {
        allowed = false;
        retry_after_seconds = at_least_one_second (microseconds limiter.window_seconds - elapsed);
      },
      limiter,
    )
    else (admission, set_window identity route (record window { count = window.count + 1 }) limiter)
