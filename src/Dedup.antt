-- ===== src/Dedup.antt =====
-- core/dedup.go: MessageDedup. Times are nanoseconds; the clock is an argument.
mod Witnesses
use echo_client.Prelude.{
  ℕ, ◌+◌, ◌-◌, ◌*◌, ◌^◌, ◌≤◌, ◌<◌, String, Bool, true, false, not, ◌≡◌, refl, sym, ap, ◌∙◌, ◌≢◌,
  inl, inr, Option, none, some, List, [], ◌∷◌, ◌==◌, arith, ltb, if◌then◌else◌, Bool-cases,
  Option-cases, eq_iff,
}
use echo_client.Prelude.Dict.{Dict, get, put, get-put, get-put_self}

abbrev pub dedup_ttl : ℕ
dedup_ttl = 60 * 10 ^ 9

-- The loop that deletes what is older than the TTL.
unfoldable pub purge : ℕ → Dict ℕ → Dict ℕ
purge now [] = []
purge now ((id, t) ∷ seen) =
    if ltb dedup_ttl (now - t) then purge now seen else (id, t) ∷ purge now seen

-- Whether the message was seen, and what is remembered then.
unfoldable pub is_duplicate : Dict ℕ → String → ℕ → Dict ℕ × Bool
unfolding purge
is_duplicate seen msg_id now =
    if msg_id == "" then (seen, false) else (elim (get msg_id (purge now seen)) [
      | some t ↦ (purge now seen, true)
      | none ↦ (put msg_id now (purge now seen), false)
    ])

-- The start time and the message's, with the grace of two seconds.
unfoldable pub is_old_message : ℕ → ℕ → Bool
is_old_message start_time msg_time = ltb (msg_time + 2 * 10 ^ 9) start_time

abbrev pub seen_after : Dict ℕ → List (String × ℕ) → Dict ℕ
seen_after seen [] = seen
seen_after seen ((id, now) ∷ calls) = seen_after (is_duplicate seen id now).0 calls

-- Calls that come no later than the given time.
abbrev pub Until : ℕ → List (String × ℕ) → Type 0
Until limit [] = Unit {0}
Until limit ((id, now) ∷ calls) = (now ≤ limit) × Until limit calls

kept :
    (id : String) (t now : ℕ) (seen : Dict ℕ)
    → get id seen ≡ some t
    → now ≤ t + dedup_ttl
    → get id (purge now seen) ≡ some t
unfolding get purge
kept id t now [] e le = cc
kept id t now ((i, u) ∷ seen) e le = ground (arith, kept id t now seen)

remembered :
    (id other : String) (t now : ℕ) (seen : Dict ℕ)
    → get id seen ≡ some t
    → now ≤ t + dedup_ttl
    → get id (is_duplicate seen other now).0 ≡ some t
unfolding is_duplicate
remembered id other t now seen e le = elim (Bool-cases (other == "")) [
  | inl empty ↦ rw (empty, is_duplicate) e
  | inr text ↦ elim (Option-cases (get other (purge now seen))) [
    | inr (u, found) ↦ rw (text, found, is_duplicate) (kept id t now seen e le)
    | inl missing ↦
        rw (text, missing, is_duplicate)
          (ground
            (arith, get-put other id now (purge now seen), kept id t now seen, eq_iff other id))
  ]
]

still :
    (id : String) (t : ℕ) (seen : Dict ℕ) (calls : List (String × ℕ))
    → get id seen ≡ some t
    → Until (t + dedup_ttl) calls
    → get id (seen_after seen calls) ≡ some t
still id t seen [] e u = e
still id t seen ((other, now) ∷ calls) e (le, u) =
    still id t (is_duplicate seen other now).0 calls (remembered id other t now seen e le) u

accepted :
    (seen : Dict ℕ) (id : String) (t : ℕ)
    → id ≢ ""
    → (is_duplicate seen id t).1 ≡ false
    → get id (is_duplicate seen id t).0 ≡ some t
unfolding is_duplicate
accepted seen id t ne e = elim (Bool-cases (id == "")) [
  | inl empty ↦ absurd (ne ((eq_iff id "").0 empty))
  | inr text ↦ elim (Option-cases (get id (purge t seen))) [
    | inr (u, found) ↦ absurd (ground (arith, text, found, e))
    | inl missing ↦ rw (text, missing, is_duplicate) (get-put_self id t (purge t seen))
  ]
]

duplicate :
    (seen : Dict ℕ) (id : String) (t now : ℕ)
    → id ≢ ""
    → get id seen ≡ some t
    → now ≤ t + dedup_ttl
    → (is_duplicate seen id now).1 ≡ true
unfolding is_duplicate
duplicate seen id t now ne e le = ground (arith, kept id t now seen, eq_iff id "")

-- Once a message with an id has been accepted, every further call with this id within the next 60
-- seconds answers that it is a duplicate, whatever calls came in between, up to the end of these 60
-- seconds. The id is not empty.
pub is_duplicate_lem :
    (seen : Dict ℕ) (id : String) (t now : ℕ) (calls : List (String × ℕ))
    → id ≢ ""
    → (is_duplicate seen id t).1 ≡ false
    → Until (t + dedup_ttl) calls
    → now ≤ t + dedup_ttl
    → (is_duplicate (seen_after (is_duplicate seen id t).0 calls) id now).1 ≡ true
is_duplicate_lem seen id t now calls ne e u le =
    duplicate (seen_after (is_duplicate seen id t).0 calls) id t now ne
      (still id t (is_duplicate seen id t).0 calls (accepted seen id t ne e) u) le
