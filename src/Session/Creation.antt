-- ===== src/Session/Creation.antt =====
-- core/session.go: GetOrCreateActive and NewSession.
use echo_client.Prelude.{
  ℕ, ◌+◌, ◌^◌, ◌<◌, String, ◌≡◌, refl, ap, ◌∙◌, ◌≢◌, ◌⊎◌, inl, inr, Option, none, some, arith,
  Option-cases, eq_iff,
}
use echo_client.Prelude.Dict.{get, put, get-put_self, get-put_ne}
use echo_client.Session.{Session}
use echo_client.Session.Manager.{
  SessionManager, create_locked, fresh_session, session_at, active_of, get_or_create_active,
  new_session, session_id, next_counter,
}
use echo_client.Session.Invariant.{Inv, fresh, create_locked-Inv, save_locked-Inv}
use echo_client.Session.Switching.{OthersKeep, save_locked-SameMemory, active_of-SameMemory}

goca_hit :
    (sm : SessionManager) (user_key : String) (now : ℕ) (s : Session)
    → active_of sm user_key ≡ some s
    → get_or_create_active sm user_key now ≡ (sm, s)
unfolding get_or_create_active
goca_hit sm user_key now s e = rw (e, get_or_create_active) refl

goca_miss :
    (sm : SessionManager) (user_key : String) (now : ℕ)
    → active_of sm user_key ≡ none
    → get_or_create_active sm user_key now ≡ create_locked sm user_key "default" now
unfolding get_or_create_active
goca_miss sm user_key now e = rw (e, get_or_create_active) refl

module _ (sm : SessionManager) (v : Inv sm) (user_key name : String) (now : ℕ)
    (room : sm.counter + 1 < 2 ^ 63) where
  abbrev id : String
  id = session_id (next_counter sm)

  abbrev created : SessionManager
  created = (create_locked sm user_key name now).0

  abbrev new : Session
  new = (create_locked sm user_key name now).1

  created-active_of : active_of created user_key ≡ some new
  unfolding active_of create_locked
  created-active_of =
      rw (get-put_self user_key id sm.active_session)
        (get-put_self id (fresh_session id name now) sm.sessions)

  -- An id that is in use is not the new one.
  used_ne : (sid : String) (s : Session) → get sid sm.sessions ≡ some s → id ≢ sid
  used_ne sid s e same =
      let gone = fresh sm v user_key name now room in ground (arith, gone, e, eq_iff id sid)

  kept_at :
      (u : String) (o : Option String)
      → get u sm.active_session ≡ o
      → session_at (put id (fresh_session id name now) sm.sessions) o ≡ session_at sm.sessions o
  kept_at u none e = refl
  kept_at u (some sid) e =
      let (s, found) = v.listed u sid (v.active u sid e) in
      get-put_ne id sid (fresh_session id name now) sm.sessions (used_ne sid s found)

  created_others : OthersKeep sm created user_key
  unfolding active_of create_locked
  created_others u other =
      rw (get-put_ne user_key u id sm.active_session other)
        (kept_at u (get u sm.active_session) refl)

  created_before :
      (sid : String) (s : Session)
      → get sid sm.sessions ≡ some s
      → get sid created.sessions ≡ some s
  unfolding create_locked
  created_before sid s e =
      get-put_ne id sid (fresh_session id name now) sm.sessions (used_ne sid s e) ∙ e

unused :
    (sm : SessionManager) (v : Inv sm) (user_key name : String) (now : ℕ)
    (room : sm.counter + 1 < 2 ^ 63)
    → get (create_locked sm user_key name now).1.id sm.sessions ≡ none
unfolding create_locked fresh_session
unused sm v user_key name now room = fresh sm v user_key name now room

abbrev pub Activates : SessionManager → String → ℕ → SessionManager × Session → Type 0
Activates sm user_key now r =
    (active_of r.0 user_key ≡ some r.1)
    × ((later : ℕ) → get_or_create_active r.0 user_key later ≡ (r.0, r.1))
    × (((active_of sm user_key ≡ some r.1) × (r.0 ≡ sm))
        ⊎ ((active_of sm user_key ≡ none)
            × (r.1 ≡ fresh_session (session_id (next_counter sm)) "default" now)))
    × OthersKeep sm r.0 user_key
    × Inv r.0

new_id :
    (sm : SessionManager) (user_key name : String) (now : ℕ)
    → (create_locked sm user_key name now).1 ≡ fresh_session (session_id (next_counter sm)) name now
unfolding create_locked
new_id sm user_key name now = refl

module _ (sm : SessionManager) (v : Inv sm) (user_key : String) (now : ℕ)
    (room : sm.counter + 1 < 2 ^ 63) where
  -- Afterwards the user key has an active session, and it is the one that was returned: the one that
  -- was active before, with nothing changed, or, if there was none, a new idle one named "default". The
  -- next call returns the same session and changes nothing. The active sessions of other user keys and
  -- the invariant stay. The manager satisfies the invariant and its counter does not overflow.
  pub get_or_create_active_lem : Activates sm user_key now (get_or_create_active sm user_key now)
  get_or_create_active_lem = elim (Option-cases (active_of sm user_key)) [
    | inr (s, e) ↦
        rw (goca_hit sm user_key now s e)
          (e, (λ later. goca_hit sm user_key later s e), inl (e, refl), (λ u other. refl), v)
    | inl e ↦
        let m = (create_locked sm user_key "default" now).0 in
        let s = (create_locked sm user_key "default" now).1 in
        let act = created-active_of sm v user_key "default" now room in
        rw (goca_miss sm user_key now e) (
          act,
          (λ later. goca_hit m user_key later s act),
          inr (e, new_id sm user_key "default" now),
          created_others sm v user_key "default" now room,
          create_locked-Inv sm v user_key "default" now room,
        )
  ]

module _ (sm : SessionManager) (v : Inv sm) (user_key name : String) (now : ℕ)
    (room : sm.counter + 1 < 2 ^ 63) where
  -- A new session has an id that no session had, is the active one of its user key, and is found under
  -- its id. Every session that existed is found as before, and the active sessions of other user keys
  -- and the invariant stay. The manager satisfies the invariant and its counter does not overflow.
  pub new_session_lem :
      let r = new_session sm user_key name now in
      (r.1 ≡ fresh_session (session_id (next_counter sm)) name now)
      × (get r.1.id sm.sessions ≡ none)
      × (active_of r.0 user_key ≡ some r.1)
      × ((sid : String) (s : Session)
          → get sid sm.sessions ≡ some s
          → get sid r.0.sessions ≡ some s)
      × OthersKeep sm r.0 user_key
      × Inv r.0
  unfolding new_session
  new_session_lem =
      let m = (create_locked sm user_key name now).0 in
      let same = save_locked-SameMemory m in
      (
        new_id sm user_key name now,
        unused sm v user_key name now room,
        active_of-SameMemory m _ user_key same ∙ created-active_of sm v user_key name now room,
        (λ sid s e.
            ap (get sid) same.sessions ∙ created_before sm v user_key name now room sid s e),
        (λ u other.
            active_of-SameMemory m _ u same ∙ created_others sm v user_key name now room u other),
        save_locked-Inv m (create_locked-Inv sm v user_key name now room),
      )
