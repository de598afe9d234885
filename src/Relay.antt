-- ===== src/Relay.antt =====
-- core/relay.go: the bindings of bots in a group chat, and the checks of Send. What HandleRelay
-- answers is an argument; the posts to the group, which only show the exchange, are not modelled.
pub mod Key
pub mod Targets
mod Witnesses
use echo_client.Prelude.{
  contains, String, Bool, true, false, not, Option, none, some, List, [], ◌∷◌, ◌==◌, if◌then◌else◌,
}
use echo_client.Prelude.Dict.{Dict, get, put, delete}
use echo_client.Relay.Key.{parse_session_key_parts}

pub record RelayBinding : Type 0 where
  pub platform : String
  pub chat_id : String
  pub bots : Dict String

-- The manager, with the bindings that its file has; an empty path keeps no file.
pub record RelayManager : Type 0 where
  pub engines : List String
  pub bindings : Dict RelayBinding
  pub store_path : String
  pub file : Dict RelayBinding
  pub disk_error : Bool

-- A write that fails is only logged.
unfoldable pub save_bindings : RelayManager → RelayManager
save_bindings rm =
    if rm.store_path == ""
    then rm
    else if rm.disk_error
    then rm
    else record rm { file = rm.bindings }

abbrev pub set_binding : RelayManager → String → RelayBinding → RelayManager
set_binding rm chat_id binding = record rm { bindings = put chat_id binding rm.bindings }

unfoldable pub bind : RelayManager → String → String → Dict String → RelayManager
unfolding save_bindings
bind rm platform chat_id bots =
    save_bindings
      (set_binding rm chat_id (record { platform = platform; chat_id = chat_id; bots = bots }))

abbrev pub binding_or_new : Option RelayBinding → String → String → RelayBinding
binding_or_new none platform chat_id = record { platform = platform; chat_id = chat_id; bots = [] }
binding_or_new (some b) platform chat_id = b

unfoldable pub add_to_bind : RelayManager → String → String → String → RelayManager
unfolding save_bindings
add_to_bind rm platform chat_id project =
    let b = binding_or_new (get chat_id rm.bindings) platform chat_id in
    save_bindings (set_binding rm chat_id (record b { bots = put project project b.bots }))

unfoldable pub unbind : RelayManager → String → RelayManager
unfolding save_bindings
unbind rm chat_id = save_bindings (record rm { bindings = delete chat_id rm.bindings })

abbrev pub is_no_bot : Dict String → Bool
is_no_bot [] = true
is_no_bot (b ∷ bots) = false

-- The end of RemoveFromBind, for a project that is bound.
unfoldable pub without_bot : RelayManager → String → RelayBinding → String → RelayManager
unfolding save_bindings
without_bot rm chat_id b project =
    let bots = delete project b.bots in
    if is_no_bot bots
    then save_bindings (record rm { bindings = delete chat_id rm.bindings })
    else save_bindings (set_binding rm chat_id (record b { bots = bots }))

unfoldable pub remove_from_bind : RelayManager → String → String → RelayManager × Bool
unfolding without_bot
remove_from_bind rm chat_id project = elim (get chat_id rm.bindings) [
  | none ↦ (rm, false)
  | some b ↦ elim (get project b.bots) [
    | none ↦ (rm, false)
    | some name ↦ (without_bot rm chat_id b project, true)
  ]
]

unfoldable pub get_binding : RelayManager → String → Option RelayBinding
get_binding rm chat_id = get chat_id rm.bindings

unfoldable pub has_engine : RelayManager → String → Bool
has_engine rm name = contains name rm.engines

unfoldable pub others : String → Dict String → Dict String
others self_project [] = []
others self_project ((project, name) ∷ bots) =
    let rest = others self_project bots in
    if project == self_project then rest else (project, name) ∷ rest

unfoldable pub list_bound_bots : RelayManager → String → String → Dict String
unfolding others
list_bound_bots rm chat_id self_project = elim (get chat_id rm.bindings) [
  | none ↦ []
  | some b ↦ others self_project b.bots
]

pub record RelayRequest : Type 0 where
  pub from : String
  pub to : String
  pub session_key : String
  pub message : String

pub data SendResult : Type 0 where
  invalid_key no_binding : SendResult
  -- with the projects that could be reached
  not_bound : Dict String → SendResult
  no_engine : SendResult
  relay_failed : String → SendResult
  -- the response, with the names that the group sees
  relayed : String → String → String → SendResult

abbrev pub display_name : String → Dict String → String
display_name project bots = elim (get project bots) [
  | none ↦ project
  | some name ↦ if name == "" then project else name
]

-- What HandleRelay returned: an error or the response.
pub data RelayAnswer : Type 0 where
  failed answered : String → RelayAnswer

abbrev pub result_of : RelayRequest → Dict String → RelayAnswer → SendResult
result_of req bots (failed e) = relay_failed e
result_of req bots (answered response) =
    relayed response (display_name req.from bots) (display_name req.to bots)

unfoldable pub send_in :
    RelayManager → RelayRequest → Option RelayBinding → RelayAnswer → SendResult
unfolding others has_engine
send_in rm req none answer = no_binding
send_in rm req (some b) answer = elim (get req.to b.bots) [
  | none ↦ not_bound (others req.from b.bots)
  | some name ↦ if has_engine rm req.to then result_of req b.bots answer else no_engine
]

unfoldable pub send : RelayManager → RelayRequest → RelayAnswer → SendResult
unfolding parse_session_key_parts send_in
send rm req answer = elim (parse_session_key_parts req.session_key) [
  | none ↦ invalid_key
  | some parts ↦ send_in rm req (get parts.1 rm.bindings) answer
]
