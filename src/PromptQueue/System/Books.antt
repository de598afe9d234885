-- ===== src/PromptQueue/System/Books.antt =====
-- The books of one chat: what its queue accepts, what is taken from it and what waits, at each step.
use mathlib.Core.Path.{subst}
use mathlib.Core.List.{append-nil}
use echo_client.Prelude.{
  ℕ, String, Bool, true, false, ◌≡◌, refl, sym, ◌≢◌, inl, inr, Option, none, some, List, [], ◌∷◌,
  ◌++◌, ◌==◌, arith, if◌then◌else◌, Bool-cases, eq_iff, ==_true, ==_false,
}
use echo_client.PromptQueue.{
  PromptQueueState, QueuedPrompt, Result, ok, err, state_of, is_busy, new_item, enqueue_prompt,
  return_cron_turn,
}
use echo_client.PromptQueue.Lifecycle.{Becomes}
use echo_client.PromptQueue.System.{
  Turn, System, Event, arrives, starts, fails, enqueues, returns, user_item_for, turn_of, item_for,
  began, popped, has_begun, step,
}
use echo_client.PromptQueue.System.Turns.{SameElsewhere, turn_of-none}
use echo_client.PromptQueue.System.Invariant.{Inv}

abbrev pub optional : Option QueuedPrompt → List QueuedPrompt
optional none = []
optional (some item) = item ∷ []

-- What waits in a chat: the popped item whose turn has not begun, then the queue.
abbrev pub pending : System → String → List QueuedPrompt
pending s k = optional (popped (turn_of k s.turns)) ++ (state_of s.queues k).items

-- The item that a step accepts into the queue of a chat.
abbrev pub newly : QueuedPrompt → Bool → Result ℕ → List QueuedPrompt
newly item true r = []
newly item false (ok n) = item ∷ []
newly item false (err e) = []

abbrev pub given_back : QueuedPrompt → Bool → Option (Result ℕ) → List QueuedPrompt
given_back item false o = []
given_back item true none = []
given_back item true (some r) = newly item false r

abbrev pub accepted : System → Event → String → List QueuedPrompt
accepted s (arrives a) k =
    if a.key == k then newly (item_for a s.queues) (began a s.queues).1 (began a s.queues).2 else []
accepted s (enqueues a) k =
    if a.key == k
    then newly (user_item_for a s.queues) false
        (enqueue_prompt s.queues a.key a.local_session_id a.agent_session_id a.message a.now).1
    else []
accepted s (returns j job_id msg now) k =
    if j == k
    then given_back (new_item s.queues j "" "" "cron" job_id msg now)
        (has_begun (turn_of j s.turns)) (return_cron_turn s.queues j job_id msg now).1
    else []
accepted s e k = []

-- The item that a step takes out for good: its turn begins, or it is given up.
abbrev pub taken : System → Event → String → List QueuedPrompt
taken s (starts j) k = if j == k then optional (popped (turn_of j s.turns)) else []
taken s (fails j) k = if j == k then optional (popped (turn_of j s.turns)) else []
taken s e k = []

-- A step keeps the books of a chat.
abbrev pub Balanced : System → Event → String → Type 0
Balanced s e k = pending s k ++ accepted s e k ≡ taken s e k ++ pending (step s e) k

pub pending_at :
    (s : System) (k : String) (i : Option QueuedPrompt) (xs : List QueuedPrompt)
    → popped (turn_of k s.turns) ≡ i
    → (state_of s.queues k).items ≡ xs
    → pending s k ≡ optional i ++ xs
pending_at s k i xs e f = rw (e, f)

pub pending_elsewhere :
    (s s' : System) (j k : String) (state : PromptQueueState)
    → Becomes s.queues s'.queues j state
    → SameElsewhere j s.turns s'.turns
    → j ≢ k
    → pending s' k ≡ pending s k
pending_elsewhere s s' j k state b same d = rw (b.elsewhere k d, same.found k d)

-- An open gate means that no item is popped.
pub not_popped :
    (s : System) (k : String)
    → Inv s
    → (state_of s.queues k).running ≡ false
    → turn_of k s.turns ≡ none
not_popped s k v idle = turn_of-none k s.turns (ground (arith, (v k).gate))

-- A step that touches chat `j` keeps the books everywhere if it does so there.
module _ (s s' : System) (j k : String) (elsewhere : j ≢ k → pending s' k ≡ pending s k) where
  pub here : (A : Type 0) → ((j ≡ k) → A) → ((j ≢ k) → A) → A
  here A same other = elim (Bool-cases (j == k)) [
    | inl e ↦ same ((eq_iff j k).0 e)
    | inr d ↦ other (λ e. cc (==_true j k e))
  ]

  pub balance_taken :
      (gone : List QueuedPrompt)
      → pending s j ≡ gone ++ pending s' j
      → pending s k ++ [] ≡ (if j == k then gone else []) ++ pending s' k
  unfolding here
  balance_taken gone h =
      here (pending s k ++ [] ≡ (if j == k then gone else []) ++ pending s' k)
        (λ e. rw (==_true j k e, append-nil) (subst (λ m. pending s m ≡ gone ++ pending s' m) e h))
        (λ d. rw (==_false j k d, append-nil) (sym (elsewhere d)))

  pub balance_accepted :
      (new : List QueuedPrompt)
      → pending s j ++ new ≡ pending s' j
      → pending s k ++ (if j == k then new else []) ≡ [] ++ pending s' k
  balance_accepted new h =
      here (pending s k ++ (if j == k then new else []) ≡ [] ++ pending s' k)
        (λ e. rw (==_true j k e) (subst (λ m. pending s m ++ new ≡ pending s' m) e h))
        (λ d. rw (==_false j k d, append-nil) (sym (elsewhere d)))

  pub balance : pending s j ≡ pending s' j → pending s k ++ [] ≡ [] ++ pending s' k
  balance h =
      here (pending s k ++ [] ≡ [] ++ pending s' k)
        (λ e. rw append-nil (subst (λ m. pending s m ≡ pending s' m) e h))
        (λ d. rw append-nil (sym (elsewhere d)))

pub idle_parts :
    (state : PromptQueueState)
    → is_busy state ≡ false
    → (state.running ≡ false) × (state.items ≡ [])
unfolding is_busy
idle_parts state h = ground arith

pub begun_pops : (o : Option Turn) → has_begun o ≡ true → popped o ≡ none
begun_pops none e = refl
begun_pops (some t) e = ground arith
