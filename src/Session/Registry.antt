-- ===== src/Session/Registry.antt =====
-- core/session.go: the rest of SessionManager: deletion, lists, counts, names per agent session, and
-- the lock of a session reached through the map.
use echo_client.Prelude.{
  contains, ℕ, String, Bool, false, not, ◌&&◌, ◌||◌, none, some, List, [], ◌∷◌, ◌==◌, if◌then◌else◌,
}
use echo_client.Prelude.Text.{trim_space}
use echo_client.Prelude.Dict.{Dict, get, put, delete, total}
use echo_client.Session.{Session, try_lock, unlock}
use echo_client.Session.Manager.{
  SessionManager, cannot_delete_active, not_found, Result, ok, err, text_or_empty, sessions_of,
  save_locked, map_values, renamed,
}

-- hasAgentSessionReferenceLocked
unfoldable pub has_agent_session_reference : String → Dict Session → Bool
has_agent_session_reference agent [] = false
has_agent_session_reference agent ((id, s) ∷ m) =
    trim_space s.agent_session_id == agent || has_agent_session_reference agent m

-- append(ids[:i], ids[i+1:]...) at the first i with the id
unfoldable pub without_first : String → List String → List String
without_first x [] = []
without_first x (y ∷ ys) = if y == x then ys else y ∷ without_first x ys

-- The custom name goes with the last session that refers to its agent session.
unfoldable pub forget_name : String → Dict Session → Dict String → Dict String
unfolding has_agent_session_reference
forget_name agent sessions names =
    if not (agent == "") && not (has_agent_session_reference agent sessions)
    then delete agent names
    else names

unfoldable pub remove_session : SessionManager → String → String → Session → SessionManager
unfolding forget_name without_first save_locked
remove_session sm user_key session_id s =
    let sessions = delete session_id sm.sessions in
    save_locked (record sm {
      sessions = sessions;
      user_sessions =
          put user_key (without_first session_id (sessions_of sm user_key)) sm.user_sessions;
      session_names = forget_name (trim_space s.agent_session_id) sessions sm.session_names;
    })

unfoldable pub delete_session : SessionManager → String → String → SessionManager × Result Session
unfolding remove_session
delete_session sm user_key session_id =
    if text_or_empty (get user_key sm.active_session) == session_id
    then (sm, err cannot_delete_active)
    else if contains session_id (sessions_of sm user_key)
    then (elim (get session_id sm.sessions) [
      | none ↦ (sm, err not_found)
      | some s ↦ (remove_session sm user_key session_id s, ok s)
    ])
    else (sm, err not_found)

unfoldable pub present : Dict Session → List String → List Session
present sessions [] = []
present sessions (sid ∷ rest) =
    let found = present sessions rest in
    elim (get sid sessions) [ none ↦ found | some s ↦ s ∷ found ]

unfoldable pub list_sessions : SessionManager → String → List Session
unfolding present
list_sessions sm user_key = present sm.sessions (sessions_of sm user_key)

unfoldable pub active_session_id : SessionManager → String → String
active_session_id sm user_key = text_or_empty (get user_key sm.active_session)

abbrev pub busy_weight : Session → ℕ
busy_weight s = if s.busy then 1 else 0

unfoldable pub busy_session_count : SessionManager → ℕ
busy_session_count sm = total busy_weight sm.sessions

unfoldable pub rename_if_linked : String → String → ℕ → Session → Session
rename_if_linked agent name now s = if s.agent_session_id == agent then renamed name now s else s

unfoldable pub rename_by_agent_session_id : SessionManager → String → String → ℕ → SessionManager
unfolding rename_if_linked map_values save_locked
rename_by_agent_session_id sm agent name now =
    save_locked (record sm { sessions = map_values (rename_if_linked agent name now) sm.sessions })

unfoldable pub set_session_name : SessionManager → String → String → SessionManager
unfolding save_locked
set_session_name sm agent name = save_locked (record sm {
  session_names =
      (if name == "" then delete agent sm.session_names else put agent name sm.session_names);
})

unfoldable pub get_session_name : SessionManager → String → String
get_session_name sm agent = text_or_empty (get agent sm.session_names)

-- session.TryLock() and session.Unlock() on the session with the id.
unfoldable pub try_lock_in : SessionManager → String → SessionManager × Bool
unfolding try_lock
try_lock_in sm id = elim (get id sm.sessions) [
  | none ↦ (sm, false)
  | some s ↦ let (s', taken) = try_lock s in (record sm { sessions = put id s' sm.sessions }, taken)
]

unfoldable pub unlock_in : SessionManager → String → ℕ → SessionManager
unfolding unlock
unlock_in sm id now = elim (get id sm.sessions) [
  | none ↦ sm
  | some s ↦ record sm { sessions = put id (unlock s now) sm.sessions }
]
