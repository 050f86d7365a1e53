-- ===== src/Tests/Limits.antt =====
-- The rate limiter at a client that asks too often.
use earth2_sandbox.Prelude.{◌≡◌, ◌≤◌, ◌+◌, refl, true, false, some, none, [], ◌∷◌, arith}
use earth2_sandbox.Limiter.{InMemoryFixedWindowRateLimiter, Window, check, microseconds}
use earth2_sandbox.Limiter.Bounds.{admitted, smaller, check-burst, check-wait}

abbrev fresh_limiter : InMemoryFixedWindowRateLimiter
fresh_limiter = record { capacity = 2; window_seconds = 60; windows = λ identity route. none }

abbrev used_window : Window
used_window = record { window_start = 5_000_000; count = 2 }

abbrev used_limiter : InMemoryFixedWindowRateLimiter
used_limiter = record fresh_limiter { windows = λ identity route. some used_window }

check-burst_example :
    admitted "ip:1" "GET /" (5_000_000 ∷ 6_000_000 ∷ 7_500_000 ∷ []) fresh_limiter ≡ smaller 3 2
check-burst_example =
    check-burst "ip:1" "GET /" 5_000_000 (6_000_000 ∷ 7_500_000 ∷ []) fresh_limiter refl
      (omega arith) (omega arith) ((omega arith, omega arith), ((omega arith, omega arith), tt))

used_limiter_refuses : (check "ip:1" "GET /" 7_500_000 used_limiter).0.allowed ≡ false
unfolding check
used_limiter_refuses = refl

check-wait_example :
    let (decision, after) = check "ip:1" "GET /" 7_500_000 used_limiter in
    (1 ≤ decision.retry_after_seconds)
    × (decision.retry_after_seconds ≤ 60)
    × (after ≡ used_limiter)
    × ((check "ip:1" "GET /"
          (7_500_000 + microseconds decision.retry_after_seconds)
          used_limiter).0.allowed
        ≡ true)
check-wait_example =
    check-wait "ip:1" "GET /" 7_500_000 used_window used_limiter refl (omega arith)
      used_limiter_refuses
