-- ===== src/Relay/Targets.antt =====
-- core/relay.go: whom Send reaches.
use echo_client.Prelude.{
  contains, String, Bool, true, false, ◌&&◌, Option, none, some, [], ◌∷◌, ◌==◌, ◌≡◌, refl, sym, ap,
  ◌∙◌, inl, inr, arith, Bool-cases, Option-cases, eq_iff,
}
use echo_client.Prelude.Dict.{Dict, get, put, delete, get-put_self, get-delete_self}
use echo_client.Relay.{
  RelayBinding, RelayManager, RelayRequest, RelayAnswer, failed, answered, SendResult, invalid_key,
  no_binding, not_bound, no_engine, relay_failed, relayed, save_bindings, set_binding,
  binding_or_new, add_to_bind, without_bot, remove_from_bind, has_engine, others, list_bound_bots,
  send_in, send, result_of, is_no_bot,
}
use echo_client.Relay.Key.{parse_session_key_parts}

-- The message is handed to the target's engine.
abbrev pub reaches : SendResult → Bool
reaches invalid_key = false
reaches no_binding = false
reaches (not_bound bots) = false
reaches no_engine = false
reaches (relay_failed e) = true
reaches (relayed response from to) = true

abbrev pub is_listed : String → Dict String → Bool
is_listed project bots = elim (get project bots) [ none ↦ false | some name ↦ true ]

get-others :
    (self to : String) (bots : Dict String)
    → (to == self) ≡ false
    → get to (others self bots) ≡ get to bots
unfolding get others
get-others self to [] h = refl
get-others self to ((p, n) ∷ bots) h =
    ground (arith, get-others self to bots h, eq_iff p self, eq_iff p to, eq_iff to self)

save_bindings-fields :
    (rm : RelayManager)
    → ((save_bindings rm).bindings ≡ rm.bindings) × ((save_bindings rm).engines ≡ rm.engines)
unfolding save_bindings
save_bindings-fields rm = ground arith

abbrev bots_of : Option RelayBinding → Dict String
bots_of none = []
bots_of (some b) = b.bots

result_reaches :
    (req : RelayRequest) (bots : Dict String) (answer : RelayAnswer)
    → reaches (result_of req bots answer) ≡ true
result_reaches req bots (failed e) = refl
result_reaches req bots (answered response) = refl

unlisted :
    (project : String) (bots : Dict String) (b : Bool)
    → get project bots ≡ none
    → (is_listed project bots && b) ≡ false
unlisted project bots b e =
    ap (λ (o : Option String). elim o as (λ x. Bool) [ none ↦ false | some name ↦ true ] && b) e

listed :
    (project name : String) (bots : Dict String) (b : Bool)
    → get project bots ≡ some name
    → (is_listed project bots && b) ≡ b
listed project name bots b e =
    ap (λ (o : Option String). elim o as (λ x. Bool) [ none ↦ false | some n ↦ true ] && b) e

handed_in :
    (rm : RelayManager) (req : RelayRequest) (o : Option RelayBinding) (answer : RelayAnswer)
    → reaches (send_in rm req o answer) ≡ (is_listed req.to (bots_of o) && has_engine rm req.to)
unfolding send_in get
handed_in rm req none answer = refl
handed_in rm req (some b) answer = elim (Option-cases (get req.to b.bots)) [
  | inl n ↦
      let it : send_in rm req (some b) answer ≡ not_bound (others req.from b.bots) =
        rw (n, send_in) refl in
      ap reaches it ∙ sym (unlisted req.to b.bots (has_engine rm req.to) n)
  | inr (name, e) ↦ elim (Bool-cases (has_engine rm req.to)) [
    | inl f ↦
        let it : send_in rm req (some b) answer ≡ result_of req b.bots answer =
          rw (e, f, send_in) refl in
        ap reaches it
        ∙ result_reaches req b.bots answer
        ∙ sym (listed req.to name b.bots (has_engine rm req.to) e ∙ f)
    | inr f ↦
        let it : send_in rm req (some b) answer ≡ no_engine = rw (e, f, send_in) refl in
        ap reaches it ∙ sym (listed req.to name b.bots (has_engine rm req.to) e ∙ f)
  ]
]

module _ (rm : RelayManager) (req : RelayRequest) (answer : RelayAnswer) (platform chat_id : String)
    (key : parse_session_key_parts req.session_key ≡ some (platform, chat_id)) where
  handed_over :
      (m : RelayManager)
      → reaches (send m req answer)
        ≡ (is_listed req.to (bots_of (get chat_id m.bindings)) && has_engine m req.to)
  unfolding send
  handed_over m =
      let it : send m req answer ≡ send_in m req (get chat_id m.bindings) answer =
        rw (key, send) refl in
      ap reaches it ∙ handed_in m req (get chat_id m.bindings) answer

  listed_targets :
      (req.to == req.from) ≡ false
      → is_listed req.to (list_bound_bots rm chat_id req.from)
        ≡ is_listed req.to (bots_of (get chat_id rm.bindings))
  unfolding list_bound_bots get
  listed_targets other = elim (Option-cases (get chat_id rm.bindings)) [
    | inl n ↦ rw (n, list_bound_bots) refl
    | inr (b, e) ↦
        rw (e, list_bound_bots)
          (ap (λ (o : Option String). elim o as (λ x. Bool) [ none ↦ false | some name ↦ true ])
            (get-others req.from req.to b.bots other))
  ]

  saved_reaches :
      (m : RelayManager) (o : Option RelayBinding)
      → get chat_id m.bindings ≡ o
      → reaches (send (save_bindings m) req answer)
        ≡ (is_listed req.to (bots_of o) && has_engine m req.to)
  unfolding has_engine
  saved_reaches m o e =
      let (bindings, engines) = save_bindings-fields m in
      handed_over (save_bindings m)
      ∙ ap (λ x. is_listed req.to (bots_of x) && contains req.to (save_bindings m).engines)
          (ap (get chat_id) bindings ∙ e)
      ∙ ap (λ l. is_listed req.to (bots_of o) && contains req.to l) engines

  removed_target : reaches (send (remove_from_bind rm chat_id req.to).0 req answer) ≡ false
  unfolding remove_from_bind without_bot get
  removed_target = elim (Option-cases (get chat_id rm.bindings)) [
    | inl n ↦
        rw (n, remove_from_bind)
          (handed_over rm ∙ ap (λ o. is_listed req.to (bots_of o) && has_engine rm req.to) n)
    | inr (b, e) ↦ elim (Option-cases (get req.to b.bots)) [
      | inl n ↦
          rw (e, n, remove_from_bind)
            (handed_over rm
              ∙ ap (λ o. is_listed req.to (bots_of o) && has_engine rm req.to) e
              ∙ unlisted req.to b.bots (has_engine rm req.to) n)
      | inr (name, f) ↦
          let left = delete req.to b.bots in
          let gone = get-delete_self req.to b.bots in
          rw (e, f, remove_from_bind)
            (elim (Bool-cases (is_no_bot left)) [
              | inl none_left ↦ rw none_left (
                  saved_reaches (record rm { bindings = delete chat_id rm.bindings }) none
                    (get-delete_self chat_id rm.bindings))
              | inr some_left ↦
                  let b' : RelayBinding = record b { bots = left } in
                  rw some_left (
                    saved_reaches (set_binding rm chat_id b') (some b')
                      (get-put_self chat_id b' rm.bindings)
                    ∙ unlisted req.to left (has_engine (set_binding rm chat_id b') req.to) gone)
            ])
    ]
  ]

  added_target :
      (p : String)
      → reaches (send (add_to_bind rm p chat_id req.to) req answer) ≡ has_engine rm req.to
  unfolding add_to_bind has_engine
  added_target p =
      let b = binding_or_new (get chat_id rm.bindings) p chat_id in
      let b' : RelayBinding = record b { bots = put req.to req.to b.bots } in
      saved_reaches (set_binding rm chat_id b') (some b') (get-put_self chat_id b' rm.bindings)
      ∙ listed req.to req.to (put req.to req.to b.bots) (has_engine rm req.to)
          (get-put_self req.to req.to b.bots)

  -- For a session key with a chat in it and a target other than the sender, Send hands the message to
  -- the target's engine if and only if ListBoundBots lists the target to the sender in that chat and
  -- the target has an engine. It never does after RemoveFromBind of the target there, and after
  -- AddToBind of the target it does whenever the target has an engine.
  pub send_lem :
      (req.to == req.from) ≡ false
      → (p : String)
      → (reaches (send rm req answer)
          ≡ (is_listed req.to (list_bound_bots rm chat_id req.from) && has_engine rm req.to))
        × (reaches (send (remove_from_bind rm chat_id req.to).0 req answer) ≡ false)
        × (reaches (send (add_to_bind rm p chat_id req.to) req answer) ≡ has_engine rm req.to)
  send_lem other p = (
    handed_over rm ∙ ap (λ b. b && has_engine rm req.to) (sym (listed_targets other)),
    removed_target,
    added_target p,
  )
