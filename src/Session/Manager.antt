-- ===== src/Session/Manager.antt =====
-- core/session.go: SessionManager, the named sessions of each user key and the active one.
-- The counter is the 64-bit pattern of the int64. What the file system does on a save is the field
-- `disk_ok`: a save that it refuses is logged by the source and leaves the file as it was. What a file
-- holds is the record that was encoded.
use echo_client.Prelude.{
  contains, ℕ, ◌+◌, ◌-◌, ◌%◌, ◌^◌, String, Bool, false, not, ◌||◌, Option, none, some, List, [],
  ◌∷◌, ◌++◌, ◌==◌, ltb, if◌then◌else◌,
}
use echo_client.Prelude.Text.{decimal}
use echo_client.Prelude.Dict.{Dict, get, put}
use echo_client.Session.{Session}

pub record SessionSnapshot : Type 0 where
  pub sessions : Dict Session
  pub active_session : Dict String
  pub user_sessions : Dict (List String)
  pub counter : ℕ
  pub session_names : Dict String

pub record SessionManager : Type 0 where
  pub sessions : Dict Session
  pub active_session : Dict String
  pub user_sessions : Dict (List String)
  pub session_names : Dict String
  pub counter : ℕ
  pub store_path : String
  pub disk : Option SessionSnapshot
  pub disk_ok : Bool

pub data SessionError : Type 0 where
  cannot_delete_active not_found : SessionError

pub data Result {ℓ} (A : Type ℓ) : Type ℓ where
  ok : A → Result A
  err : SessionError → Result A

-- Reads of a missing key: "" and no list.
abbrev pub text_or_empty : Option String → String
text_or_empty none = ""
text_or_empty (some s) = s

abbrev pub list_or_nil : Option (List String) → List String
list_or_nil none = []
list_or_nil (some l) = l

abbrev pub sessions_of : SessionManager → String → List String
sessions_of sm user_key = list_or_nil (get user_key sm.user_sessions)

-- The copy that saveLocked makes: every field but NeedsReplay, which is left at its zero value, and
-- the lock.
unfoldable pub saved_copy : Session → Session
saved_copy s = record s { needs_replay = false; busy = false }

unfoldable pub map_values : (Session → Session) → Dict Session → Dict Session
map_values f [] = []
map_values f ((id, s) ∷ m) = (id, f s) ∷ map_values f m

unfoldable pub snapshot : SessionManager → SessionSnapshot
unfolding map_values saved_copy
snapshot sm = record {
  sessions = map_values saved_copy sm.sessions;
  active_session = sm.active_session;
  user_sessions = sm.user_sessions;
  counter = sm.counter;
  session_names = sm.session_names;
}

unfoldable pub save_locked : SessionManager → SessionManager
unfolding snapshot
save_locked sm =
    if sm.store_path == "" || not sm.disk_ok then sm else record sm { disk = some (snapshot sm) }

-- fmt.Sprintf("s%d", counter), of an int64
unfoldable pub session_id : ℕ → String
session_id counter =
    if ltb counter (2 ^ 63)
    then String.◌∷◌ "s" (decimal counter)
    else String.◌∷◌ "s" (String.◌∷◌ "-" (decimal (2 ^ 64 - counter)))

abbrev pub next_counter : SessionManager → ℕ
next_counter sm = (sm.counter + 1) % 2 ^ 64

unfoldable pub fresh_session : String → String → ℕ → Session
fresh_session id name now = record {
  id = id;
  name = name;
  agent_session_id = "";
  needs_replay = false;
  history = [];
  created_at = now;
  updated_at = now;
  busy = false;
}

unfoldable pub create_locked : SessionManager → String → String → ℕ → SessionManager × Session
unfolding fresh_session session_id
create_locked sm user_key name now =
    let id = session_id (next_counter sm) in
    let s = fresh_session id name now in
    (
      record sm {
        counter = next_counter sm;
        sessions = put id s sm.sessions;
        active_session = put user_key id sm.active_session;
        user_sessions = put user_key (sessions_of sm user_key ++ id ∷ []) sm.user_sessions;
      },
      s,
    )

-- The active session of a user key, if both maps have it.
abbrev pub session_at : Dict Session → Option String → Option Session
session_at sessions none = none
session_at sessions (some sid) = get sid sessions

unfoldable pub active_of : SessionManager → String → Option Session
active_of sm user_key = session_at sm.sessions (get user_key sm.active_session)

unfoldable pub get_or_create_active : SessionManager → String → ℕ → SessionManager × Session
unfolding active_of create_locked
get_or_create_active sm user_key now = elim (active_of sm user_key) [
  | some s ↦ (sm, s)
  | none ↦ create_locked sm user_key "default" now
]

unfoldable pub new_session : SessionManager → String → String → ℕ → SessionManager × Session
unfolding create_locked save_locked
new_session sm user_key name now =
    let (sm', s) = create_locked sm user_key name now in (save_locked sm', s)

-- The loop of SwitchSession: the first listed session with the id or the name.
unfoldable pub find_target : Dict Session → String → List String → Option Session
find_target sessions target [] = none
find_target sessions target (sid ∷ rest) =
    let next = find_target sessions target rest in
    elim (get sid sessions) [
      | none ↦ next
      | some s ↦ if s.id == target || s.name == target then some s else next
    ]

unfoldable pub switch_session : SessionManager → String → String → SessionManager × Result Session
unfolding find_target save_locked
switch_session sm user_key target =
    elim (find_target sm.sessions target (sessions_of sm user_key)) [
      | none ↦ (sm, err not_found)
      | some s ↦
          (save_locked (record sm { active_session = put user_key s.id sm.active_session }), ok s)
    ]

abbrev pub renamed : String → ℕ → Session → Session
renamed name now s = record s { name = name; updated_at = now }

-- `s.Name = name` through the pointer in the map, and the save.
abbrev write_name : SessionManager → String → String → ℕ → SessionManager × Option Session
write_name sm session_id name now = elim (get session_id sm.sessions) [
  | none ↦ (sm, none)
  | some s ↦ (
    save_locked (record sm { sessions = put session_id (renamed name now s) sm.sessions }),
    some (renamed name now s),
  )
]

unfoldable pub rename_session :
    SessionManager → String → String → String → ℕ → SessionManager × Option Session
unfolding save_locked
rename_session sm user_key session_id name now =
    if contains session_id (sessions_of sm user_key)
    then write_name sm session_id name now
    else (sm, none)

unfoldable pub rename_active_session :
    SessionManager → String → String → ℕ → SessionManager × Option Session
unfolding save_locked
rename_active_session sm user_key name now =
    let sid = text_or_empty (get user_key sm.active_session) in
    if sid == "" then (sm, none) else write_name sm sid name now
