-- ===== src/RateLimit/Limit.antt =====
-- core/ratelimit.go: what Allow promises of every window, over all calls.
use echo_client.Prelude.{
  ℕ, ◌≤◌, ◌<◌, String, Bool, false, ◌&&◌, ◌≡◌, refl, sym, ap, ◌∙◌, inl, inr, List, [], ◌∷◌, ◌++◌,
  ◌==◌, ◌≢◌, eq_iff, arith, ltb, leb, if◌then◌else◌, Bool-cases, filter, length, length-filter-le,
  length-append,
}
use echo_client.Prelude.Dict.{get, put, get-put_self, get-put_ne}
use echo_client.RateLimit.{RateBucket, RateLimiter, bucket_of, in_window, allow_bucket, allow}

-- The limiter, and the times at which messages of one key were allowed, after calls with any keys.
abbrev pub after : String → RateLimiter × List ℕ → List (String × ℕ) → RateLimiter × List ℕ
after k (rl, log) [] = (rl, log)
after k (rl, log) ((key, now) ∷ calls) =
    let (rl', ok) = allow rl key now in
    after k (rl', if key == k && ok then log ++ now ∷ [] else log) calls

-- Times that do not go back, from a first one.
abbrev pub Ordered : ℕ → List (String × ℕ) → Type 0
Ordered from [] = Unit {0}
Ordered from ((key, now) ∷ calls) = (from ≤ now) × Ordered now calls

abbrev pub last : ℕ → List (String × ℕ) → ℕ
last from [] = from
last from ((key, now) ∷ calls) = last now calls

-- In every window from now on, the bucket knows what was allowed.
abbrev Agrees : ℕ → ℕ → List ℕ → List ℕ → Type 0
Agrees window from kept log =
    (t : ℕ) → from ≤ t → filter (in_window window t) kept ≡ filter (in_window window t) log

filter-filter :
    (window now t : ℕ) (l : List ℕ)
    → now ≤ t
    → filter (in_window window t) (filter (in_window window now) l) ≡ filter (in_window window t) l
filter-filter window now t [] le = refl
filter-filter window now t (x ∷ l) le = ground (arith, filter-filter window now t l)

filter-append : (p : ℕ → Bool) (l k : List ℕ) → filter p (l ++ k) ≡ filter p l ++ filter p k
filter-append p [] k = refl
filter-append p (x ∷ l) k = elim (Bool-cases (p x)) [
  | inl e ↦ rw e (ap (λ r. x ∷ r) (filter-append p l k))
  | inr e ↦ rw e (filter-append p l k)
]

abbrev log_of : List ℕ → ℕ → Bool → List ℕ
log_of log now ok = if ok then log ++ now ∷ [] else log

module _ (max window : ℕ) where
  Agrees-allow_bucket :
      (b : RateBucket) (log : List ℕ) (from now : ℕ)
      → from ≤ now
      → Agrees window from b.timestamps log
      → let r = allow_bucket max window b now in
        Agrees window now r.0.timestamps (log_of log now r.1)
  unfolding allow_bucket
  Agrees-allow_bucket b log from now le a t lt =
      let old : filter (in_window window t) (filter (in_window window now) b.timestamps)
          ≡ filter (in_window window t) log =
        filter-filter window now t b.timestamps lt ∙ a t (omega (arith, le, lt)) in
      elim (Bool-cases (leb max (length (filter (in_window window now) b.timestamps)))) [
        | inl full ↦ rw (full, allow_bucket) old
        | inr free ↦
            rw (free, allow_bucket)
              (filter-append (in_window window t) (filter (in_window window now) b.timestamps)
                  (now ∷ [])
                ∙ ap (λ l. l ++ filter (in_window window t) (now ∷ [])) old
                ∙ sym (filter-append (in_window window t) log (now ∷ [])))
      ]

  bounded :
      (b : RateBucket) (now : ℕ)
      → length b.timestamps ≤ max
      → length (allow_bucket max window b now).0.timestamps ≤ max
  unfolding allow_bucket
  bounded b now le =
      let k = filter (in_window window now) b.timestamps in
      elim (Bool-cases (leb max (length k))) [
        | inl full ↦
            rw (full, allow_bucket)
              (omega (arith, le, length-filter-le (in_window window now) b.timestamps))
        | inr free ↦ rw (free, allow_bucket, length-append k (now ∷ [])) (ground (arith, free))
      ]

  answer :
      (b : RateBucket) (now : ℕ)
      → (allow_bucket max window b now).1
        ≡ ltb (length (filter (in_window window now) b.timestamps)) max
  unfolding allow_bucket
  answer b now = ground arith

allow_on :
    (rl : RateLimiter) (key : String) (now : ℕ)
    → 0 < rl.max_messages
    → let r = allow_bucket rl.max_messages rl.window_ms (bucket_of rl key) now in
      allow rl key now ≡ (record rl { buckets = put key r.0 rl.buckets }, r.1)
unfolding allow
allow_on rl key now pos =
    let e : leb rl.max_messages 0 ≡ false = ground (arith, pos) in rw (e, allow) refl

bucket_of-put_self :
    (rl : RateLimiter) (key : String) (b : RateBucket)
    → bucket_of (record rl { buckets = put key b rl.buckets }) key ≡ b
bucket_of-put_self rl key b = rw (get-put_self key b rl.buckets, bucket_of) refl

bucket_of-put_ne :
    (rl : RateLimiter) (key k : String) (b : RateBucket)
    → key ≢ k
    → bucket_of (record rl { buckets = put key b rl.buckets }) k ≡ bucket_of rl k
bucket_of-put_ne rl key k b ne = rw (get-put_ne key k b rl.buckets ne, bucket_of) refl

-- The bucket of the key agrees with the log, and is within the limit.
abbrev Tracks : String → ℕ → RateLimiter → List ℕ → Type 0
Tracks k from rl log =
    (0 < rl.max_messages)
    × Agrees rl.window_ms from (bucket_of rl k).timestamps log
    × (length (bucket_of rl k).timestamps ≤ rl.max_messages)

Tracks-allow :
    (k key : String) (from now : ℕ) (rl : RateLimiter) (log : List ℕ)
    → from ≤ now
    → Tracks k from rl log
    → let r = allow rl key now in
      Tracks k now r.0 (if key == k && r.1 then log ++ now ∷ [] else log)
Tracks-allow k key from now rl log le (pos, a, cap) =
    let r = allow_bucket rl.max_messages rl.window_ms (bucket_of rl key) now in
    elim (Bool-cases (key == k)) [
      | inl same ↦
          let at : key ≡ k = (eq_iff key k).0 same in
          rw (allow_on rl key now pos, same)
            (rw at (
              rw
                (bucket_of-put_self rl k
                  (allow_bucket rl.max_messages rl.window_ms (bucket_of rl k) now).0)
                (
                  pos,
                  Agrees-allow_bucket rl.max_messages rl.window_ms (bucket_of rl k) log from now le
                      a,
                  bounded rl.max_messages rl.window_ms (bucket_of rl k) now cap,
                )))
      | inr other ↦
          rw (allow_on rl key now pos, other)
            (rw (bucket_of-put_ne rl key k r.0 (λ h. ground (arith, eq_iff key k)))
              (pos, (λ t lt. a t (omega (arith, le, lt))), cap))
    ]

Tracks-after :
    (k : String) (from : ℕ) (rl : RateLimiter) (log : List ℕ) (calls : List (String × ℕ))
    → Ordered from calls
    → Tracks k from rl log
    → let r = after k (rl, log) calls in Tracks k (last from calls) r.0 r.1
Tracks-after k from rl log [] o tr = tr
Tracks-after k from rl log ((key, now) ∷ calls) (le, o) tr =
    Tracks-after k now (allow rl key now).0 (log_of log now (key == k && (allow rl key now).1))
      calls o (Tracks-allow k key from now rl log le tr)

allow-config :
    (rl : RateLimiter) (key : String) (now : ℕ)
    → ((allow rl key now).0.max_messages ≡ rl.max_messages)
      × ((allow rl key now).0.window_ms ≡ rl.window_ms)
unfolding allow
allow-config rl key now = elim (Bool-cases (leb rl.max_messages 0)) [
  | inl e ↦ rw (e, allow) (refl, refl)
  | inr e ↦ rw (e, allow) (refl, refl)
]

after-config :
    (k : String) (rl : RateLimiter) (log : List ℕ) (calls : List (String × ℕ))
    → ((after k (rl, log) calls).0.max_messages ≡ rl.max_messages)
      × ((after k (rl, log) calls).0.window_ms ≡ rl.window_ms)
after-config k rl log [] = (refl, refl)
after-config k rl log ((key, now) ∷ calls) =
    let ih =
      after-config k (allow rl key now).0 (log_of log now (key == k && (allow rl key now).1))
        calls in
    (ih.0 ∙ (allow-config rl key now).0, ih.1 ∙ (allow-config rl key now).1)

-- After any calls, a call is allowed exactly if fewer than max_messages of its key were allowed in the
-- window that ends now, and with it the window has at most max_messages. The limiter starts without
-- buckets and with a positive limit, and the clock does not go back.
pub allow-Limit :
    (max window from now : ℕ) (k : String) (calls : List (String × ℕ))
    → 0 < max
    → Ordered from calls
    → last from calls ≤ now
    → let start : RateLimiter = record { buckets = []; max_messages = max; window_ms = window } in
      let r = after k (start, []) calls in
      let answer = (allow r.0 k now).1 in
      (answer ≡ ltb (length (filter (in_window window now) r.1)) max)
      × (length (filter (in_window window now) (if answer then r.1 ++ now ∷ [] else r.1)) ≤ max)
unfolding get
allow-Limit max window from now k calls pos o le =
    let start : RateLimiter = record { buckets = []; max_messages = max; window_ms = window } in
    let r = after k (start, []) calls in
    let (p, a, cap) = Tracks-after k from start [] calls o (pos, (λ t h. refl), omega arith) in
    let (same_max, same_window) = after-config k start [] calls in
    rw (same_max, same_window) at (limited r.0 r.1 (last from calls) (p, a, cap) le)
  where
    limited :
        (rl : RateLimiter) (log : List ℕ) (c : ℕ)
        → Tracks k c rl log
        → c ≤ now
        → let ok = (allow rl k now).1 in
          (ok ≡ ltb (length (filter (in_window rl.window_ms now) log)) rl.max_messages)
          × (length (filter (in_window rl.window_ms now) (if ok then log ++ now ∷ [] else log))
              ≤ rl.max_messages)
    limited rl log c (p, a, cap) h =
        let same = a now h in
        rw (allow_on rl k now p, answer rl.max_messages rl.window_ms (bucket_of rl k) now, same)
          (
            refl,
            elim (Bool-cases
                (ltb (length (filter (in_window rl.window_ms now) log)) rl.max_messages)) [
                  | inl few ↦
                      rw
                        (
                          few,
                          filter-append (in_window rl.window_ms now) log (now ∷ []),
                          length-append (filter (in_window rl.window_ms now) log)
                              (filter (in_window rl.window_ms now) (now ∷ [])),
                        )
                        (ground (arith, length-filter-le (in_window rl.window_ms now) (now ∷ [])))
                  | inr many ↦ rw many (
                      omega (
                        arith,
                        cap,
                        ap length same,
                        length-filter-le (in_window rl.window_ms now) (bucket_of rl k).timestamps,
                      ))
                ],
          )
