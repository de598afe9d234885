-- ===== src/Session/Witnesses.antt =====
-- core/session.go: the theorems on sessions, applied to a manager with two user keys.
use echo_client.Prelude.{
  ◌+◌, ◌<◌, ◌^◌, String, true, false, not, ◌≡◌, refl, none, some, List, [], ◌∷◌, ◌++◌, arith,
  length, drop, if◌then◌else◌, ltb, eqb, ◌||◌,
}
use echo_client.Prelude.Dict.{get}
use echo_client.Session.{
  HistoryEntry, Session, get_history, latest_assistant_message, latest_assistant_message_since,
}
use echo_client.Session.History.{
  LatestSpeaker, latest_assistant_message-LatestSpeaker, get_history_lem,
}
use echo_client.Session.Manager.{
  SessionManager, active_of, fresh_session, get_or_create_active, new_session, switch_session,
  session_id, next_counter,
}
use echo_client.Session.Registry.{
  delete_session, try_lock_in, unlock_in, busy_weight, busy_session_count,
}
use echo_client.Session.Invariant.{Inv}
use echo_client.Session.Switching.{Switches, OthersKeep, switch_session_lem}
use echo_client.Session.Creation.{Activates, get_or_create_active_lem, new_session_lem}
use echo_client.Session.Deletion.{Deletes, delete_session_lem}
use echo_client.Session.Locking.{try_lock_in_lem}

abbrev blank : SessionManager
blank = record {
  sessions = [];
  active_session = [];
  user_sessions = [];
  session_names = [];
  counter = 0;
  store_path = "sessions.json";
  disk = none;
  disk_ok = true;
}

blank-Inv : Inv blank
unfolding get
blank-Inv = record {
  own_id = λ sid s e. cc;
  numbered = λ sid s e. cc;
  listed = λ u sid e. cc;
  once = λ u. tt;
  disjoint = λ u v sid e f. cc;
  active = λ u sid e. cc;
}

-- Two sessions of one user key, the second one active.
abbrev first : SessionManager
first = (new_session blank "ann" "one" 10).0

abbrev both : SessionManager
both = (new_session first "ann" "two" 20).0

first_counter : first.counter ≡ 1
unfolding new_session
first_counter = refl

first_room : first.counter + 1 < 2 ^ 63
first_room = omega (arith, first_counter)

first-Inv : Inv first
first-Inv =
    let (a, b, c, d, e, v) = new_session_lem blank blank-Inv "ann" "one" 10 (omega arith) in v

both-Inv : Inv both
both-Inv = let (a, b, c, d, e, v) = new_session_lem first first-Inv "ann" "two" 20 first_room in v

new_session_example :
    ((new_session first "ann" "two" 20).1
      ≡ fresh_session (session_id (next_counter first)) "two" 20)
    × (get (new_session first "ann" "two" 20).1.id first.sessions ≡ none)
    × (active_of both "ann" ≡ some (new_session first "ann" "two" 20).1)
    × ((sid : String) (s : Session)
        → get sid first.sessions ≡ some s
        → get sid both.sessions ≡ some s)
    × OthersKeep first both "ann"
    × Inv both
new_session_example = new_session_lem first first-Inv "ann" "two" 20 first_room

get_or_create_active_example : Activates first "bob" 30 (get_or_create_active first "bob" 30)
get_or_create_active_example = get_or_create_active_lem first first-Inv "bob" 30 first_room

switch_session_example : Switches both "ann" "one" (switch_session both "ann" "one")
switch_session_example = switch_session_lem both both-Inv "ann" "one"

delete_session_example : Deletes both "ann" "s1" (delete_session both "ann" "s1")
delete_session_example = delete_session_lem both both-Inv "ann" "s1"

abbrev talked : Session
talked = record (fresh_session "s1" "one" 10) {
  history =
      record { role = "user"; content = "hi"; timestamp = 11 }
      ∷ record { role = "assistant"; content = " hello "; timestamp = 12 }
      ∷ record { role = "assistant"; content = " "; timestamp = 13 }
      ∷ [];
}

abbrev one : SessionManager
one = record blank { sessions = ("s1", talked) ∷ []; counter = 1 }

try_lock_in_example :
    ((try_lock_in one "s1").1 ≡ not talked.busy)
    × (busy_session_count (try_lock_in one "s1").0 + busy_weight talked
        ≡ busy_session_count one + 1)
    × ((try_lock_in (try_lock_in one "s1").0 "s1").1 ≡ false)
    × (busy_session_count (unlock_in (try_lock_in one "s1").0 "s1" 30) + 1
        ≡ busy_session_count (try_lock_in one "s1").0)
    × ((try_lock_in (unlock_in (try_lock_in one "s1").0 "s1" 30) "s1").1 ≡ true)
unfolding get fresh_session
try_lock_in_example = try_lock_in_lem one "s1" talked refl 30

latest_assistant_message_example :
    LatestSpeaker talked.history (latest_assistant_message talked)
    × LatestSpeaker (drop 2 talked.history) (latest_assistant_message_since talked 2)
latest_assistant_message_example = latest_assistant_message-LatestSpeaker talked 2

get_history_example :
    (before : List HistoryEntry) × (talked.history ≡ before ++ get_history talked 2)
    × (length (get_history talked 2)
        ≡ (if eqb 2 0 || ltb (length talked.history) 2 then length talked.history else 2))
get_history_example = get_history_lem talked 2
