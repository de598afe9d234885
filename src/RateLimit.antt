-- ===== src/RateLimit.antt =====
-- core/ratelimit.go: RateLimiter. Times are milliseconds; the clock is an argument. A comparison with
-- `now - windowMs`, which may be negative in the source, has the window on its other side here.
mod Limit
mod Witnesses
use echo_client.Prelude.{
  ℕ, ◌+◌, ◌-◌, ◌*◌, ◌≤◌, ◌<◌, String, Bool, true, false, not, ◌&&◌, ◌||◌, ◌≡◌, refl, sym, ap, ◌∙◌,
  inl, inr, Option, none, some, List, [], ◌∷◌, ◌++◌, ◌==◌, ◌≢◌, eq_iff, arith, ltb, leb,
  if◌then◌else◌, Bool-cases, filter, length, length-filter-le, length-append,
}
use echo_client.Prelude.Dict.{Dict, get, put, get-put_self, get-put_ne}

pub record RateBucket : Type 0 where
  pub timestamps : List ℕ
  pub last_access : ℕ

-- A limit that is not positive is 0.
pub record RateLimiter : Type 0 where
  pub buckets : Dict RateBucket
  pub max_messages : ℕ
  pub window_ms : ℕ

abbrev pub bucket_of : RateLimiter → String → RateBucket
bucket_of rl key = elim (get key rl.buckets) [
  | none ↦ record { timestamps = []; last_access = 0 }
  | some b ↦ b
]

-- ts > now - windowMs
abbrev pub in_window : ℕ → ℕ → ℕ → Bool
in_window window now ts = ltb now (ts + window)

unfoldable pub allow_bucket : ℕ → ℕ → RateBucket → ℕ → RateBucket × Bool
allow_bucket max window b now =
    let filtered = filter (in_window window now) b.timestamps in
    if leb max (length filtered)
    then (record { timestamps = filtered; last_access = now }, false)
    else (record { timestamps = filtered ++ now ∷ []; last_access = now }, true)

unfoldable pub allow : RateLimiter → String → ℕ → RateLimiter × Bool
unfolding allow_bucket
allow rl key now =
    if leb rl.max_messages 0
    then (rl, true)
    else (let (b, ok) = allow_bucket rl.max_messages rl.window_ms (bucket_of rl key) now in
        (record rl { buckets = put key b rl.buckets }, ok))

-- One round of cleanupLoop.
unfoldable pub cleanup : ℕ → ℕ → Dict RateBucket → Dict RateBucket
cleanup window now [] = []
cleanup window now ((key, b) ∷ buckets) =
    if ltb (b.last_access + window * 2) now
    then cleanup window now buckets
    else (key, b) ∷ cleanup window now buckets
