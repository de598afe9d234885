-- ===== src/Session/Invariant.antt =====
-- What holds of the session manager between calls, and that each call that adds, selects or removes
-- sessions keeps it.
use text.Mathlib.TextLemmas.{tail-eq_of_cons-eq}
use echo_client.Prelude.{
  contains-append, contains, ℕ, ◌+◌, ◌^◌, ◌≤◌, ◌<◌, String, Bool, true, false, not, ◌&&◌, ◌||◌, ◌≡◌,
  refl, sym, inl, inr, none, some, List, [], ◌∷◌, ◌++◌, ◌==◌, arith, if◌then◌else◌, Bool-cases,
  Option-cases, eq_iff, lt→ltb,
}
use echo_client.Prelude.Text.Laws.{decimal_injective}
use echo_client.Prelude.Dict.{Dict, get, put, get-put}
use echo_client.Session.{Session}
use echo_client.Session.Manager.{
  SessionManager, sessions_of, list_or_nil, save_locked, session_id, next_counter, fresh_session,
  create_locked,
}

pub session_id_injective : (m n : ℕ) → m < 2 ^ 63 → n < 2 ^ 63 → session_id m ≡ session_id n → m ≡ n
unfolding session_id
session_id_injective m n hm hn e =
    decimal_injective m n (
      tail-eq_of_cons-eq {x = "s"} {y = "s"} (rw (lt→ltb m (2 ^ 63) hm, lt→ltb n (2 ^ 63) hn) at e))

abbrev pub Numbered : ℕ → String → Type 0
Numbered counter sid = (n : ℕ) × (n ≤ counter) × (sid ≡ session_id n)

abbrev pub Once : List String → Type 0
Once [] = Unit {0}
Once (x ∷ xs) = (contains x xs ≡ false) × Once xs

pub record Inv (sm : SessionManager) : Type 0 where
  -- A session stands under its own id.
  pub own_id : (sid : String) (s : Session) → get sid sm.sessions ≡ some s → s.id ≡ sid
  -- Ids are numbers that the counter has passed.
  pub numbered :
      (sid : String) (s : Session) → get sid sm.sessions ≡ some s → Numbered sm.counter sid
  -- Each user key lists sessions that exist, each once, and shares none with another.
  pub listed :
      (u sid : String)
      → contains sid (sessions_of sm u) ≡ true
      → (s : Session) × (get sid sm.sessions ≡ some s)
  pub once : (u : String) → Once (sessions_of sm u)
  pub disjoint :
      (u v sid : String)
      → contains sid (sessions_of sm u) ≡ true
      → contains sid (sessions_of sm v) ≡ true
      → u ≡ v
  -- The active session of a user key is one of its list.
  pub active :
      (u sid : String) → get u sm.active_session ≡ some sid → contains sid (sessions_of sm u) ≡ true

-- The invariant does not speak of the file.
pub save_locked-Inv : (sm : SessionManager) → Inv sm → Inv (save_locked sm)
unfolding save_locked
save_locked-Inv sm v = elim (Bool-cases (sm.store_path == "" || not sm.disk_ok)) [
  | inl e ↦ rw e v
  | inr e ↦ rw e (record {
    own_id = v.own_id;
    numbered = v.numbered;
    listed = v.listed;
    once = v.once;
    disjoint = v.disjoint;
    active = v.active;
  })
]

-- The list of a user key after a write to the lists.
pub sessions_of-put :
    (u v : String) (l : List String) (m : Dict (List String))
    → list_or_nil (get v (put u l m)) ≡ (if u == v then l else list_or_nil (get v m))
sessions_of-put u v l m = rw (get-put u v l m) (split (u == v))
  where
    split :
        (b : Bool)
        → list_or_nil (if b then some l else get v m) ≡ (if b then l else list_or_nil (get v m))
    split true = refl
    split false = refl

Once-append : (y : String) (l : List String) → contains y l ≡ false → Once l → Once (l ++ y ∷ [])
Once-append y [] h o = (refl, tt)
Once-append y (z ∷ l) h o =
    ground (arith, Once-append y l, contains-append z y l, eq_iff z y, eq_iff y z)

module _ (sm : SessionManager) (v : Inv sm) (user_key name : String) (now : ℕ)
    (room : sm.counter + 1 < 2 ^ 63) where
  abbrev id : String
  id = session_id (next_counter sm)

  counter_next : next_counter sm ≡ sm.counter + 1
  counter_next = omega (arith, room)

  -- The new id is unused.
  pub fresh : get id sm.sessions ≡ none
  fresh = elim (Option-cases (get id sm.sessions)) [
    | inl e ↦ e
    | inr (s, e) ↦
        let (n, le, same) = v.numbered id s e in
        let eq =
          session_id_injective (next_counter sm) n (omega (arith, counter_next)) (omega arith)
            same in
        absurd (omega (arith, eq, counter_next))
  ]

  unlisted : (u : String) → contains id (sessions_of sm u) ≡ false
  unlisted u = elim (Bool-cases (contains id (sessions_of sm u))) [
    | inr e ↦ e
    | inl e ↦ let (s, found) = v.listed u id e in absurd (ground (arith, fresh))
  ]

  abbrev created : SessionManager
  created = (create_locked sm user_key name now).0

  -- The list of each user key afterwards, as a test.
  created_list :
      (u sid : String)
      → contains sid (sessions_of created u)
        ≡ (contains sid (sessions_of sm u) || (user_key == u && id == sid))
  unfolding create_locked
  created_list u sid = elim (Bool-cases (user_key == u)) [
    | inl same ↦ rw (
      sessions_of-put user_key u (sessions_of sm user_key ++ id ∷ []) sm.user_sessions,
      same,
      contains-append sid id (sessions_of sm user_key),
      (eq_iff user_key u).0 same,
    )
    | inr other ↦
        rw (sessions_of-put user_key u (sessions_of sm user_key ++ id ∷ []) sm.user_sessions, other)
          (sym (or_false (contains sid (sessions_of sm u))))
  ]
    where
      or_false : (b : Bool) → (b || false) ≡ b
      or_false true = refl
      or_false false = refl

  created_own_id : (sid : String) (s : Session) → get sid created.sessions ≡ some s → s.id ≡ sid
  unfolding create_locked fresh_session
  created_own_id sid s e =
      ground (
        arith,
        get-put id sid (fresh_session id name now) sm.sessions,
        eq_iff id sid,
        v.own_id sid s,
      )

  created-Numbered :
      (sid : String) (s : Session)
      → get sid created.sessions ≡ some s
      → Numbered created.counter sid
  unfolding create_locked
  created-Numbered sid s e = elim (Bool-cases (id == sid)) [
    | inl same ↦ (next_counter sm, omega arith, sym ((eq_iff id sid).0 same))
    | inr other ↦
        let old : get sid sm.sessions ≡ some s =
          ground (arith, get-put id sid (fresh_session id name now) sm.sessions) in
        let (n, le, same) = v.numbered sid s old in (n, omega (arith, counter_next), same)
  ]

  created_listed :
      (u sid : String)
      → contains sid (sessions_of created u) ≡ true
      → (s : Session) × (get sid created.sessions ≡ some s)
  unfolding create_locked
  created_listed u sid e = elim (Bool-cases (id == sid)) [
    | inl same ↦ (
      fresh_session id name now,
      ground (arith, get-put id sid (fresh_session id name now) sm.sessions),
    )
    | inr other ↦
        let old : contains sid (sessions_of sm u) ≡ true = ground (arith, created_list u sid) in
        let (s, found) = v.listed u sid old in
        (s, ground (arith, get-put id sid (fresh_session id name now) sm.sessions))
  ]

  created-Once : (u : String) → Once (sessions_of created u)
  unfolding create_locked
  created-Once u = elim (Bool-cases (user_key == u)) [
    | inl same ↦
        rw (sessions_of-put user_key u (sessions_of sm user_key ++ id ∷ []) sm.user_sessions, same)
          (Once-append id (sessions_of sm user_key) (unlisted user_key) (v.once user_key))
    | inr other ↦
        rw (sessions_of-put user_key u (sessions_of sm user_key ++ id ∷ []) sm.user_sessions, other)
          (v.once u)
  ]

  created_disjoint :
      (u w sid : String)
      → contains sid (sessions_of created u) ≡ true
      → contains sid (sessions_of created w) ≡ true
      → u ≡ w
  created_disjoint u w sid e f = ground (
    arith,
    created_list u sid,
    created_list w sid,
    unlisted u,
    unlisted w,
    v.disjoint u w sid,
    eq_iff id sid,
    eq_iff user_key u,
    eq_iff user_key w,
  )

  created_active :
      (u sid : String)
      → get u created.active_session ≡ some sid
      → contains sid (sessions_of created u) ≡ true
  unfolding create_locked
  created_active u sid e = ground (
    arith,
    created_list u sid,
    get-put user_key u id sm.active_session,
    v.active u sid,
    eq_iff id sid,
  )

  pub create_locked-Inv : Inv created
  create_locked-Inv = record {
    own_id = created_own_id;
    numbered = created-Numbered;
    listed = created_listed;
    once = created-Once;
    disjoint = created_disjoint;
    active = created_active;
  }
