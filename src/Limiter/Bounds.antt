-- ===== src/Limiter/Bounds.antt =====
-- How many requests the limiter lets through, and how long it makes a client wait.
use Prim.Native.Nat.{◌/◌}
use earth2_sandbox.Prelude.{
  ℕ, suc, ◌+◌, ◌-◌, ◌≤◌, ◌<◌, ◌≡◌, refl, ap, ◌∙◌, String, true, false, none, some, List, [], ◌∷◌,
  length, All, inl, inr, Bool-cases, leb, eq_refl, if◌then◌else◌, arith,
}
use earth2_sandbox.Limiter.{
  Window, InMemoryFixedWindowRateLimiter, microseconds, at_least_one_second, set_window, check,
}

-- The number of requests of one client for one route that are let through, by their times.
abbrev pub admitted : String → String → List ℕ → InMemoryFixedWindowRateLimiter → ℕ
admitted identity route [] limiter = 0
admitted identity route (now ∷ times) limiter =
    let (decision, limiter') = check identity route now limiter in
    let rest = admitted identity route times limiter' in if decision.allowed then suc rest else rest

abbrev pub smaller : ℕ → ℕ → ℕ
smaller m n = if leb m n then m else n

module _ (identity route : String) (start : ℕ) where
  abbrev InWindow : InMemoryFixedWindowRateLimiter → ℕ → Type 0
  InWindow limiter now = (start ≤ now) × (now < start + microseconds limiter.window_seconds)

  set_window-same :
      (window : Window) (limiter : InMemoryFixedWindowRateLimiter)
      → (set_window identity route window limiter).windows identity route ≡ some window
  set_window-same window limiter = simp eq_refl

  admitted_lem :
      (times : List ℕ) (count : ℕ) (limiter : InMemoryFixedWindowRateLimiter)
      → limiter.windows identity route ≡ some (record { window_start = start; count = count })
      → count ≤ limiter.capacity
      → All (InWindow limiter) times
      → admitted identity route times limiter ≡ smaller (length times) (limiter.capacity - count)
  unfolding check
  admitted_lem [] count limiter w fits h = ground arith
  admitted_lem (now ∷ times) count limiter w fits h =
      let fresh : leb (microseconds limiter.window_seconds) (now - start) ≡ false = ground arith in
      elim (Bool-cases (leb limiter.capacity count)) [
        | inl full ↦
            rw (w, check, fresh, full) (admitted_lem times count limiter w fits h.1 ∙ ground arith)
        | inr free ↦
            let window : Window = record { window_start = start; count = count + 1 } in
            let rest =
              admitted_lem times (count + 1) (set_window identity route window limiter)
                (set_window-same window limiter) (ground arith) h.1 in
            rw (w, check, fresh, free) (ap suc rest ∙ ground arith)
      ]

-- A client without a window, with a limiter that lets anything through: of its requests in the window
-- that the first one opens, as many are let through as the capacity, or all if there are no more.
pub check-burst :
    (identity route : String) (start : ℕ) (times : List ℕ)
    (limiter : InMemoryFixedWindowRateLimiter)
    → limiter.windows identity route ≡ none
    → 0 < limiter.capacity
    → 0 < limiter.window_seconds
    → All (InWindow identity route start limiter) times
    → admitted identity route (start ∷ times) limiter
      ≡ smaller (suc (length times)) limiter.capacity
unfolding check
check-burst identity route start times limiter new room long h =
    let fresh : leb (microseconds limiter.window_seconds) (start - start) ≡ false = ground arith in
    let free : leb limiter.capacity 0 ≡ false = ground arith in
    let window : Window = record { window_start = start; count = 1 } in
    let rest =
      admitted_lem identity route start times 1 (set_window identity route window limiter)
        (set_window-same identity route start window limiter) (ground arith) h in
    rw (new, check, fresh, free) (ap suc rest ∙ ground arith)

leb_of_le : {m n : ℕ} → m ≤ n → leb m n ≡ true
leb_of_le h = ground arith

at_least_one_second_lem :
    (n bound : ℕ)
    → 0 < n
    → n ≤ microseconds bound
    → let r = at_least_one_second n in (1 ≤ r) × (n ≤ microseconds r) × (r ≤ bound)
at_least_one_second_lem n bound positive short =
    elim (Bool-cases (leb 1 ((n + 999_999) / 1_000_000))) [
      | inl more ↦ rw (more) (ground arith, omega arith, omega arith)
      | inr less ↦ absurd (ground arith)
    ]

-- A client that has a window and is refused is told to wait for at least a second and at most the length
-- of a window, the limiter stays as it is, and a request after that wait is let through.
pub check-wait :
    (identity route : String) (now : ℕ) (window : Window) (limiter : InMemoryFixedWindowRateLimiter)
    → limiter.windows identity route ≡ some window
    → window.window_start ≤ now
    → (check identity route now limiter).0.allowed ≡ false
    → let (decision, after) = check identity route now limiter in
      (1 ≤ decision.retry_after_seconds)
      × (decision.retry_after_seconds ≤ limiter.window_seconds)
      × (after ≡ limiter)
      × ((check identity route (now + microseconds decision.retry_after_seconds) limiter).0.allowed
          ≡ true)
unfolding check
check-wait identity route now window limiter has begun refused =
    elim (Bool-cases (leb (microseconds limiter.window_seconds) (now - window.window_start))) [
      | inl over ↦ absurd (ground (arith, has, over, refused))
      | inr within ↦ elim (Bool-cases (leb limiter.capacity window.count)) [
        | inr free ↦ absurd (ground (arith, has, within, free, refused))
        | inl full ↦
            let left = microseconds limiter.window_seconds - (now - window.window_start) in
            let (some_wait, enough, short) =
              at_least_one_second_lem left limiter.window_seconds (ground arith) (ground arith) in
            let expired : leb (microseconds limiter.window_seconds)
                  (now + microseconds (at_least_one_second left) - window.window_start)
                ≡ true =
              leb_of_le (omega (arith, enough)) in
            rw (has, check, within, full) (some_wait, short, refl, rw (expired) refl)
      ]
    ]
