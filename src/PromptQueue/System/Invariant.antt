-- ===== src/PromptQueue/System/Invariant.antt =====
-- What holds of one chat between steps, and how each kind of step keeps it there.
use echo_client.Prelude.{
  ℕ, suc, ◌+◌, ◌≤◌, String, true, false, ◌≡◌, ◌≢◌, inl, inr, Option, none, some, List, [], ◌∷◌,
  ◌++◌, ◌==◌, arith, if◌then◌else◌, length, length-append, Bool-cases, eq_iff, All, All-append,
  ==_true,
}
use echo_client.PromptQueue.{
  QueuedPrompt, PromptQueueState, state_of, is_busy, max_prompt_queue_items,
}
use echo_client.PromptQueue.Lifecycle.{Becomes}
use echo_client.PromptQueue.System.{Turn, System, turn_of, end_turn, turn_for, popped}
use echo_client.PromptQueue.System.Turns.{holders, SameElsewhere, turn_of-none, holders-end_turn}

-- The popped items that have not begun: 0 or 1 of them counts against the queue.
abbrev pub waiting : Option QueuedPrompt → ℕ
waiting none = 0
waiting (some item) = 1

pub waiting-le_one : (i : Option QueuedPrompt) → waiting i ≤ 1
waiting-le_one none = omega arith
waiting-le_one (some item) = omega arith

abbrev pub IsKeyed : String → QueuedPrompt → Type 0
IsKeyed k item = item.queue_key ≡ k

abbrev pub PoppedKeyed : String → Option QueuedPrompt → Type 0
PoppedKeyed k none = Unit {0}
PoppedKeyed k (some item) = IsKeyed k item

-- What holds of one chat, by its state, the number of its turns and the turn that is found.
pub record KeyInv (k : String) (state : PromptQueueState) (n : ℕ) (t : Option Turn) : Type 0 where
  pub gate : n ≡ (if state.running then 1 else 0)
  pub keyed : All (IsKeyed k) state.items
  pub popped_keyed : PoppedKeyed k (popped t)
  pub bounded : length state.items + waiting (popped t) ≤ max_prompt_queue_items + 1

abbrev pub Inv : System → Type 0
Inv s = (k : String) → KeyInv k (state_of s.queues k) (holders k s.turns) (turn_of k s.turns)

-- A step that touches one chat keeps the invariant if it does so there.
pub lift :
    (s s' : System) (k : String) (state : PromptQueueState)
    → Inv s
    → Becomes s.queues s'.queues k state
    → SameElsewhere k s.turns s'.turns
    → KeyInv k state (holders k s'.turns) (turn_of k s'.turns)
    → Inv s'
lift s s' k state v b same h j = elim (Bool-cases (k == j)) [
  | inl e ↦ rw (← (eq_iff k j).0 e) (rw b.here h)
  | inr d ↦
      let ne : k ≢ j = λ e. cc (==_true k j e) in
      rw (b.elsewhere j ne, same.count j ne, same.found j ne) (v j)
]

module _ (k : String) (state : PromptQueueState) (n : ℕ) (t : Option Turn)
    (v : KeyInv k state n t) where
  pub claim-KeyInv :
      is_busy state ≡ false
      → KeyInv k (record { running = true; items = [] }) (suc n) (some (turn_for k none))
  unfolding is_busy
  claim-KeyInv idle = ground arith

  pub pop-KeyInv :
      (item : QueuedPrompt) (rest : List QueuedPrompt)
      → state.running ≡ false
      → state.items ≡ item ∷ rest
      → KeyInv k (record { running = true; items = rest }) (suc n) (some (turn_for k (some item)))
  pop-KeyInv item rest idle e = ground arith

  pub enqueue-KeyInv :
      (item : QueuedPrompt)
      → item.queue_key ≡ k
      → length state.items + 1 ≤ max_prompt_queue_items
      → KeyInv k (record state { items = state.items ++ item ∷ [] }) n t
  enqueue-KeyInv item key room = record {
    gate = v.gate;
    keyed = All-append (IsKeyed k) state.items (item ∷ []) v.keyed (key, tt);
    popped_keyed = v.popped_keyed;
    bounded = omega (arith, length-append state.items (item ∷ []), waiting-le_one (popped t));
  }

  pub start-KeyInv : KeyInv k state n (some (turn_for k none))
  start-KeyInv = record {
    gate = v.gate;
    keyed = v.keyed;
    popped_keyed = tt;
    bounded = omega (arith, v.bounded);
  }

  pub release-KeyInv : (m : ℕ) → n ≡ suc m → KeyInv k (record state { running = false }) m none
  release-KeyInv m e = ground arith

  pub return-KeyInv :
      (m : ℕ) (item : QueuedPrompt)
      → n ≡ suc m
      → item.queue_key ≡ k
      → length state.items + 1 ≤ max_prompt_queue_items
      → KeyInv k (record { running = false; items = state.items ++ item ∷ [] }) m none
  return-KeyInv m item e key room =
      let opened = release-KeyInv m e in
      record {
        gate = opened.gate;
        keyed = All-append (IsKeyed k) state.items (item ∷ []) v.keyed (key, tt);
        popped_keyed = tt;
        bounded = omega (arith, length-append state.items (item ∷ []));
      }

  pub requeue-KeyInv :
      (m : ℕ) (item : QueuedPrompt)
      → n ≡ suc m
      → popped t ≡ some item
      → KeyInv k (record { running = false; items = item ∷ state.items }) m none
  requeue-KeyInv m item e p = ground arith

-- The gate counts one turn at most, so none is left when one has ended.
pub ended_none :
    (k : String) (state : PromptQueueState) (ts : List Turn) (t : Turn)
    → KeyInv k state (holders k ts) (turn_of k ts)
    → turn_of k ts ≡ some t
    → turn_of k (end_turn k ts) ≡ none
ended_none k state ts t v e =
    turn_of-none k (end_turn k ts) (ground (arith, holders-end_turn k ts t e))
