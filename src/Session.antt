-- ===== src/Session.antt =====
-- core/session.go: Session and its history.
-- A *Session is a value here; the manager's map is its store, and an update through the pointer is a
-- write to that map under the session's id. Times are numbers.
pub mod History
pub mod Manager
pub mod Registry
pub mod Invariant
pub mod Switching
pub mod Creation
mod Witnesses
pub mod Deletion
pub mod Locking
use echo_client.Prelude.{
  ℕ, ◌-◌, String, Bool, true, false, not, ◌&&◌, ◌||◌, Option, none, some, List, [], ◌∷◌, ◌++◌, ◌==◌,
  ltb, eqb, if◌then◌else◌, length, drop,
}
use mathlib.Core.List.{reverse}
use echo_client.Prelude.Text.{trim_space}

pub record HistoryEntry : Type 0 where
  pub role : String
  pub content : String
  pub timestamp : ℕ

pub record Session : Type 0 where
  pub id : String
  pub name : String
  pub agent_session_id : String
  pub needs_replay : Bool
  pub history : List HistoryEntry
  pub created_at : ℕ
  pub updated_at : ℕ
  pub busy : Bool

unfoldable pub try_lock : Session → Session × Bool
try_lock s = if s.busy then (s, false) else (record s { busy = true }, true)

unfoldable pub unlock : Session → ℕ → Session
unlock s now = record s { busy = false; updated_at = now }

unfoldable pub add_history : Session → String → String → ℕ → Session
add_history s role content now = record s {
  history = s.history ++ record { role = role; content = content; timestamp = now } ∷ [];
}

unfoldable pub clear_history : Session → Session
clear_history s = record s { history = [] }

-- A negative n, which the source treats like 0, is 0 here.
unfoldable pub get_history : Session → ℕ → List HistoryEntry
get_history s n =
    let total = length s.history in
    let n' = if eqb n 0 || ltb total n then total else n in drop (total - n') s.history

-- The body of both loops over the history, from its end.
unfoldable pub first_assistant : List HistoryEntry → String
first_assistant [] = ""
first_assistant (entry ∷ rest) =
    let later = first_assistant rest in
    if not (entry.role == "assistant")
    then later
    else if not (trim_space entry.content == "")
    then trim_space entry.content
    else later

unfoldable pub latest_assistant_message : Session → String
unfolding first_assistant
latest_assistant_message s = first_assistant (reverse s.history)

-- A negative index, which the source sets to 0, is 0 here.
unfoldable pub latest_assistant_message_since : Session → ℕ → String
unfolding first_assistant
latest_assistant_message_since s index =
    let index' = if ltb (length s.history) index then length s.history else index in
    first_assistant (reverse (drop index' s.history))

unfoldable pub history_len : Session → ℕ
history_len s = length s.history
