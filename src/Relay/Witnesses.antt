-- ===== src/Relay/Witnesses.antt =====
-- core/relay.go: the theorem on targets, applied to a chat of two bots.
use echo_client.Prelude.{false, ◌&&◌, [], ◌∷◌, ◌≡◌, refl}
use echo_client.Relay.{
  RelayManager, RelayRequest, answered, send, list_bound_bots, has_engine, remove_from_bind,
  add_to_bind,
}
use echo_client.Relay.Key.{parse_session_key_parts, cut_colon}
use echo_client.Relay.Targets.{reaches, is_listed, send_lem}

abbrev manager : RelayManager
manager = record {
  engines = "api" ∷ "web" ∷ [];
  bindings =
      (
        "c1",
        record { platform = "slack"; chat_id = "c1"; bots = ("api", "api") ∷ ("web", "web") ∷ [] },
      )
      ∷ [];
  store_path = "";
  file = [];
  disk_error = false;
}

abbrev request : RelayRequest
request = record { from = "api"; to = "web"; session_key = "slack:c1:u1"; message = "look" }

send_example :
    (reaches (send manager request (answered "done"))
      ≡ (is_listed "web" (list_bound_bots manager "c1" "api") && has_engine manager "web"))
    × (reaches (send (remove_from_bind manager "c1" "web").0 request (answered "done")) ≡ false)
    × (reaches (send (add_to_bind manager "slack" "c1" "web") request (answered "done"))
        ≡ has_engine manager "web")
unfolding parse_session_key_parts cut_colon
send_example = send_lem manager request (answered "done") "slack" "c1" refl refl "slack"
