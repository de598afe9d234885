-- ===== src/Session/Locking.antt =====
-- core/session.go: TryLock and Unlock of a session in the manager, and BusySessionCount.
use echo_client.Prelude.{
  inl, inr, ℕ, ◌+◌, String, Bool, true, false, not, ◌≡◌, refl, sym, ap, ◌∙◌, some, arith,
  Bool-cases,
}
use echo_client.Prelude.Dict.{get, put, get-put_self, total, total-put, weight}
use echo_client.Session.{Session, try_lock, unlock}
use echo_client.Session.Manager.{SessionManager}
use echo_client.Session.Registry.{busy_weight, busy_session_count, try_lock_in, unlock_in}

-- A lock of a session that is there.
locked :
    (sm : SessionManager) (id : String) (s : Session)
    → get id sm.sessions ≡ some s
    → try_lock_in sm id
      ≡ (record sm { sessions = put id (try_lock s).0 sm.sessions }, (try_lock s).1)
unfolding try_lock_in
locked sm id s e = rw (e, try_lock_in) refl

unlocked :
    (sm : SessionManager) (id : String) (s : Session) (now : ℕ)
    → get id sm.sessions ≡ some s
    → unlock_in sm id now ≡ record sm { sessions = put id (unlock s now) sm.sessions }
unfolding unlock_in
unlocked sm id s now e = rw (e, unlock_in) refl

try_lock_busy : (s : Session) → (try_lock s).0.busy ≡ true
unfolding try_lock
try_lock_busy s = elim (Bool-cases s.busy) [ inl e ↦ ground arith | inr e ↦ ground arith ]

try_lock_free : (s : Session) → (try_lock s).1 ≡ not s.busy
unfolding try_lock
try_lock_free s = ground arith

-- The count after a write to a session that is there.
count-put :
    (sm : SessionManager) (id : String) (s s' : Session)
    → get id sm.sessions ≡ some s
    → busy_session_count (record sm { sessions = put id s' sm.sessions }) + busy_weight s
      ≡ busy_session_count sm + busy_weight s'
unfolding busy_session_count
count-put sm id s s' e =
    sym (ap (λ o. total busy_weight (put id s' sm.sessions) + weight busy_weight o) e)
    ∙ total-put busy_weight id s' sm.sessions

module _ (sm : SessionManager) (id : String) (s : Session)
    (found : get id sm.sessions ≡ some s) where
  abbrev held : SessionManager
  held = record sm { sessions = put id (try_lock s).0 sm.sessions }

  held_at : get id held.sessions ≡ some (try_lock s).0
  held_at = get-put_self id (try_lock s).0 sm.sessions

  held_count : busy_session_count held + busy_weight s ≡ busy_session_count sm + 1
  held_count = ground (arith, count-put sm id s (try_lock s).0 found, try_lock_busy s)

  unlock_idle : (t : Session) (now : ℕ) → (unlock t now).busy ≡ false
  unfolding unlock
  unlock_idle t now = refl

  -- TryLock on a session that the manager has succeeds exactly if the session was idle, and the
  -- session counts as busy afterwards; a second TryLock fails. After an Unlock the session no longer
  -- counts as busy, and TryLock succeeds again.
  pub try_lock_in_lem :
      (now : ℕ)
      → let r = try_lock_in sm id in
        let u = unlock_in r.0 id now in
        (r.1 ≡ not s.busy)
        × (busy_session_count r.0 + busy_weight s ≡ busy_session_count sm + 1)
        × ((try_lock_in r.0 id).1 ≡ false)
        × (busy_session_count u + 1 ≡ busy_session_count r.0)
        × ((try_lock_in u id).1 ≡ true)
  try_lock_in_lem now =
      let t = (try_lock s).0 in
      let released = record held { sessions = put id (unlock t now) held.sessions } in
      let free_at = get-put_self id (unlock t now) held.sessions in
      rw (locked sm id s found, unlocked held id t now held_at)
        (
          try_lock_free s,
          held_count,
          ap (λ (p : SessionManager × Bool). p.1) (locked held id t held_at)
              ∙ ground (arith, try_lock_free t, try_lock_busy s),
          ground (
            arith,
            count-put held id t (unlock t now) held_at,
            try_lock_busy s,
            unlock_idle t now,
          ),
          ap (λ (p : SessionManager × Bool). p.1) (locked released id (unlock t now) free_at)
              ∙ ground (arith, try_lock_free (unlock t now), unlock_idle t now),
        )
