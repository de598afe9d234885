-- ===== src/PromptQueue/System/Turns.antt =====
-- Turns counted and found by their key, when one is added or ends.
use echo_client.Prelude.{
  ℕ, suc, String, true, ◌≡◌, refl, ◌≢◌, Option, none, some, List, [], ◌∷◌, ◌==◌, arith,
  if◌then◌else◌, eq_iff, ==_self, ==_false,
}
use echo_client.PromptQueue.{QueuedPrompt}
use echo_client.PromptQueue.System.{Turn, turn_of, end_turn, turn_for, has_begun}

-- How many turns hold the gate of a key.
unfoldable pub holders : String → List Turn → ℕ
holders k [] = 0
holders k (t ∷ ts) = if t.key == k then suc (holders k ts) else holders k ts

-- Reads and counts of the other chats do not see a turn come or go.
pub holders-end_turn_ne :
    (k j : String) (ts : List Turn) → k ≢ j → holders j (end_turn k ts) ≡ holders j ts
unfolding holders end_turn
holders-end_turn_ne k j [] d = refl
holders-end_turn_ne k j (t ∷ ts) d =
    ground (arith, holders-end_turn_ne k j ts d, eq_iff t.key k, eq_iff t.key j, eq_iff k j)

pub turn_of-end_turn_ne :
    (k j : String) (ts : List Turn) → k ≢ j → turn_of j (end_turn k ts) ≡ turn_of j ts
unfolding turn_of end_turn
turn_of-end_turn_ne k j [] d = refl
turn_of-end_turn_ne k j (t ∷ ts) d =
    ground (arith, turn_of-end_turn_ne k j ts d, eq_iff t.key k, eq_iff t.key j, eq_iff k j)

-- Where a turn is found, it is counted, and its end takes one off.
pub holders-end_turn :
    (k : String) (ts : List Turn) (t : Turn)
    → turn_of k ts ≡ some t
    → holders k ts ≡ suc (holders k (end_turn k ts))
unfolding holders end_turn turn_of
holders-end_turn k [] t e = cc
holders-end_turn k (u ∷ ts) t e = ground (arith, holders-end_turn k ts t)

pub turn_of-none : (k : String) (ts : List Turn) → holders k ts ≡ 0 → turn_of k ts ≡ none
unfolding holders turn_of
turn_of-none k [] h = refl
turn_of-none k (t ∷ ts) h = ground (arith, turn_of-none k ts)

-- The turns of the other chats stay.
pub record SameElsewhere (k : String) (ts ts' : List Turn) : Type 0 where
  pub count : (j : String) → k ≢ j → holders j ts' ≡ holders j ts
  pub found : (j : String) → k ≢ j → turn_of j ts' ≡ turn_of j ts

pub new_turn :
    (k : String) (item : Option QueuedPrompt) (ts : List Turn)
    → SameElsewhere k ts (turn_for k item ∷ ts)
unfolding holders turn_of
new_turn k item ts = record {
  count = λ j d. rw (==_false k j d);
  found = λ j d. rw (==_false k j d);
}

pub ended : (k : String) (ts : List Turn) → SameElsewhere k ts (end_turn k ts)
ended k ts = record {
  count = λ j d. holders-end_turn_ne k j ts d;
  found = λ j d. turn_of-end_turn_ne k j ts d;
}

pub same_turns : (k : String) (ts : List Turn) → SameElsewhere k ts ts
same_turns k ts = record { count = λ j d. refl; found = λ j d. refl }

-- What is at the chat's own key after a new turn, and after one has ended.
pub holders_new :
    (k : String) (item : Option QueuedPrompt) (ts : List Turn)
    → holders k (turn_for k item ∷ ts) ≡ suc (holders k ts)
unfolding holders
holders_new k item ts = rw (==_self k)

pub turn_of_new :
    (k : String) (item : Option QueuedPrompt) (ts : List Turn)
    → turn_of k (turn_for k item ∷ ts) ≡ some (turn_for k item)
unfolding turn_of
turn_of_new k item ts = rw (==_self k)

pub begun_turn : (o : Option Turn) → has_begun o ≡ true → (t : Turn) × (o ≡ some t)
begun_turn none e = cc
begun_turn (some t) e = (t, refl)
