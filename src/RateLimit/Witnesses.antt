-- ===== src/RateLimit/Witnesses.antt =====
-- core/ratelimit.go: the theorem on the limit, applied to a limit of two in ten milliseconds.
use echo_client.Prelude.{
  ℕ, ◌≤◌, ◌≡◌, List, [], ◌∷◌, ◌++◌, arith, filter, length, ltb, if◌then◌else◌,
}
use echo_client.RateLimit.{RateLimiter, allow, in_window}
use echo_client.RateLimit.Limit.{after, allow-Limit}

abbrev two_in_ten : RateLimiter
two_in_ten = record { buckets = []; max_messages = 2; window_ms = 10 }

abbrev served : RateLimiter × List ℕ
served = after "ann" (two_in_ten, []) (("ann", 1) ∷ ("bob", 2) ∷ ("ann", 3) ∷ [])

allow-Limit_example :
    ((allow served.0 "ann" 5).1 ≡ ltb (length (filter (in_window 10 5) served.1)) 2)
    × (length (
          filter
            (in_window 10 5)
            (if (allow served.0 "ann" 5).1 then served.1 ++ 5 ∷ [] else served.1))
        ≤ 2)
allow-Limit_example =
    allow-Limit 2 10 0 5 "ann" (("ann", 1) ∷ ("bob", 2) ∷ ("ann", 3) ∷ []) (omega arith)
      (omega arith, (omega arith, (omega arith, tt))) (omega arith)
