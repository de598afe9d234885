-- ===== src/PromptQueue/System/Edits.antt =====
-- The /queue commands and the cancellation on a session switch keep what holds of each chat.
use echo_client.Prelude.{
  ℕ, ◌≤◌, String, Bool, not, ◌≡◌, ap, inl, inr, Option, List, [], ◌∷◌, ◌++◌, arith, length,
  length-append, All, All-append, All-filter, filter,
}
use mathlib.Core.Path.{subst}
use echo_client.PromptQueue.{QueuedPrompt, PromptQueueState, Queues, state_of}
use echo_client.PromptQueue.Lifecycle.{Becomes}
use echo_client.PromptQueue.Commands.{Delta, is_cancelled}
use echo_client.PromptQueue.Commands.Edit.{Deletes, Moves, delete_lem, move_lem, clear_lem}
use echo_client.PromptQueue.Commands.Cancel.{kept, cancel_lem}
use echo_client.PromptQueue.System.{Turn, System, deletes, moves, clears, cancels, step}
use echo_client.PromptQueue.System.Turns.{same_turns}
use echo_client.PromptQueue.System.Keys.{OneEach}
use echo_client.PromptQueue.System.Invariant.{IsKeyed, KeyInv, Inv, lift}

-- Fewer items, of the same chat.
edit-KeyInv :
    (k : String) (state : PromptQueueState) (n : ℕ) (t : Option Turn) (items : List QueuedPrompt)
    → KeyInv k state n t
    → All (IsKeyed k) items
    → length items ≤ length state.items
    → KeyInv k (record state { items = items }) n t
edit-KeyInv k state n t items v keyed le = record {
  gate = v.gate;
  keyed = keyed;
  popped_keyed = v.popped_keyed;
  bounded = omega (arith, v.bounded, le);
}

All-left : (P : QueuedPrompt → Type 0) (xs ys : List QueuedPrompt) → All P (xs ++ ys) → All P xs
All-left P [] ys h = tt
All-left P (x ∷ xs) ys h = (h.0, All-left P xs ys h.1)

All-right : (P : QueuedPrompt → Type 0) (xs ys : List QueuedPrompt) → All P (xs ++ ys) → All P ys
All-right P [] ys h = h
All-right P (x ∷ xs) ys h = All-right P xs ys h.1

All-without :
    (P : QueuedPrompt → Type 0) (xs : List QueuedPrompt) (x : QueuedPrompt) (ys : List QueuedPrompt)
    → All P (xs ++ x ∷ ys)
    → All P (xs ++ ys)
All-without P xs x ys h =
    All-append P xs ys (All-left P xs (x ∷ ys) h) (All-right P xs (x ∷ ys) h).1

All-traded :
    (P : QueuedPrompt → Type 0) (xs : List QueuedPrompt) (a b : QueuedPrompt)
    (ys : List QueuedPrompt)
    → All P (xs ++ a ∷ b ∷ ys)
    → All P (xs ++ b ∷ a ∷ ys)
All-traded P xs a b ys h =
    let r = All-right P xs (a ∷ b ∷ ys) h in
    All-append P xs (b ∷ a ∷ ys) (All-left P xs (a ∷ b ∷ ys) h) (r.1.0, (r.0, r.1.1))

filter-le : (p : QueuedPrompt → Bool) (xs : List QueuedPrompt) → length (filter p xs) ≤ length xs
filter-le p [] = omega arith
filter-le p (x ∷ xs) = ground (arith, filter-le p xs)

module _ (s : System) (v : Inv s) where
  edited :
      (qs : Queues) (k : String) (items : List QueuedPrompt)
      → Becomes s.queues qs k (record (state_of s.queues k) { items = items })
      → All (IsKeyed k) items
      → length items ≤ length (state_of s.queues k).items
      → Inv (record s { queues = qs })
  edited qs k items b keyed le =
      lift s (record s { queues = qs }) k _ v b (same_turns k s.turns)
        (edit-KeyInv k (state_of s.queues k) _ _ items (v k) keyed le)

  same : (qs : Queues) → qs ≡ s.queues → Inv (record s { queues = qs })
  same qs e = rw e v

  deleted :
      (k name : String) (r : Queues × Bool)
      → Deletes s.queues k name r
      → Inv (record s { queues = r.0 })
  deleted k name r (inl (_, e, _)) = same r.0 e
  deleted k name r (inr (_, (i, _, (c, b)))) =
      edited r.0 k (c.before ++ c.behind) b
        (All-without (IsKeyed k) c.before c.item c.behind
          (subst (All (IsKeyed k)) c.whole (v k).keyed))
        (omega (
          arith,
          length-append c.before c.behind,
          length-append c.before (c.item ∷ c.behind),
          ap length c.whole,
        ))

  pub deletes-Inv : (k name : String) → Inv (step s (deletes k name))
  unfolding step
  deletes-Inv k name = deleted k name _ (delete_lem s.queues k name)

  moved :
      (k name : String) (delta : Delta) (r : Queues × Bool)
      → Moves s.queues k name delta r
      → Inv (record s { queues = r.0 })
  moved k name delta r (inl (_, e, _)) = same r.0 e
  moved k name delta r (inr (_, (i, _, (j, _, t)))) =
      edited r.0 k (t.before ++ t.second ∷ t.first ∷ t.behind) t.becomes
        (All-traded (IsKeyed k) t.before t.first t.second t.behind
          (subst (All (IsKeyed k)) t.whole (v k).keyed))
        (omega (
          arith,
          length-append t.before (t.first ∷ t.second ∷ t.behind),
          length-append t.before (t.second ∷ t.first ∷ t.behind),
          ap length t.whole,
        ))

  pub moves-Inv : (k name : String) (delta : Delta) → Inv (step s (moves k name delta))
  unfolding step
  moves-Inv k name delta = moved k name delta _ (move_lem s.queues k name delta)

  pub clears-Inv : (k : String) → Inv (step s (clears k))
  unfolding step
  clears-Inv k = edited _ k [] (clear_lem s.queues k).0 tt (omega arith)

  pub cancels-Inv :
      (session_key local agent : String)
      → OneEach s.queues
      → Inv (step s (cancels session_key local agent))
  unfolding step
  cancels-Inv session_key local agent d k =
      let cancel = is_cancelled session_key local agent in
      let items = (state_of s.queues k).items in
      rw ((cancel_lem s.queues session_key local agent d).0 k) (
        edit-KeyInv k (state_of s.queues k) _ _ (kept cancel items) (v k)
          (All-filter (IsKeyed k) (λ item. not (cancel item)) items (v k).keyed)
          (filter-le (λ item. not (cancel item)) items))
