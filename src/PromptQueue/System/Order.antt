-- ===== src/PromptQueue/System/Order.antt =====
-- The order of service when prompts are also deleted, cleared or cancelled: what leaves a queue or waits
-- in it is what it accepted, in that order, with some left out.
use mathlib.Core.Path.{subst}
use mathlib.Core.List.{append_assoc, append-nil, Sublistᴰ}
use mathlib.Core.List.Sublistᴰ
use echo_client.Prelude.{
  String, Bool, not, ◌≡◌, refl, sym, ◌≢◌, inl, inr, List, [], ◌∷◌, ◌++◌, ◌==◌, Bool-cases, eq_iff,
  ==_true, All, filter,
}
use echo_client.Prelude.Dict.{get}
use echo_client.PromptQueue.{QueuedPrompt, PromptQueueState, Queues, state_of}
use echo_client.PromptQueue.Lifecycle.{Becomes}
use echo_client.PromptQueue.Commands.{
  delete_prompt_queue_item, clear_prompt_queue, cancel_queued_prompts_for_session_switch,
  is_cancelled,
}
use echo_client.PromptQueue.Commands.Edit.{Deletes, delete_lem, clear_lem}
use echo_client.PromptQueue.Commands.Cancel.{cancel_lem}
use echo_client.PromptQueue.System.{
  System, Event, arrives, enqueues, returns, drains, starts, requeues, fails, completes, deletes,
  moves, clears, cancels, turn_of, popped, step, run, empty,
}
use echo_client.PromptQueue.System.Keys.{OneEach, step-OneEach}
use echo_client.PromptQueue.System.Invariant.{Inv}
use echo_client.PromptQueue.System.Gate.{step-Inv, empty-Inv}
use echo_client.PromptQueue.System.Books.{optional, pending, accepted, taken}
use echo_client.PromptQueue.System.Fifo.{step-Balanced, all_accepted, all_taken}

abbrev Sub : List QueuedPrompt → List QueuedPrompt → Type 0
Sub xs ys = Sublistᴰ xs ys

all_stay : (xs : List QueuedPrompt) → Sub xs xs
all_stay xs = Sublistᴰ.refl xs

more_before :
    (xs : List QueuedPrompt) {ys zs : List QueuedPrompt} → Sub ys zs → Sub (xs ++ ys) (xs ++ zs)
more_before [] h = h
more_before (x ∷ xs) h = Sublistᴰ.cons-cons refl (more_before xs h)

more_behind :
    {xs ys : List QueuedPrompt} (zs : List QueuedPrompt) → Sub xs ys → Sub (xs ++ zs) (ys ++ zs)
more_behind zs Sublistᴰ.slnil = all_stay zs
more_behind zs (Sublistᴰ.cons h) = Sublistᴰ.cons (more_behind zs h)
more_behind zs (Sublistᴰ.cons-cons e h) = Sublistᴰ.cons-cons e (more_behind zs h)

filter_leaves : (p : QueuedPrompt → Bool) (xs : List QueuedPrompt) → Sub (filter p xs) xs
filter_leaves p [] = all_stay []
filter_leaves p (x ∷ xs) = elim (Bool-cases (p x)) [
  | inl e ↦ rw e (Sublistᴰ.cons-cons refl (filter_leaves p xs))
  | inr e ↦ rw e (Sublistᴰ.cons (filter_leaves p xs))
]

same_list : {xs ys : List QueuedPrompt} → ys ≡ xs → Sub xs ys
same_list {xs} e = subst (λ zs. Sub xs zs) (sym e) (all_stay xs)

-- An event does not reorder the queue of a chat.
abbrev pub IsNoMove : String → Event → Type 0
IsNoMove k (moves j name delta) = j ≢ k
IsNoMove k e = Unit

abbrev Kept : System → Event → String → Type 0
Kept s e k = Sub (taken s e k ++ pending (step s e) k) (pending s k ++ accepted s e k)

module _ (s : System) (k : String) where
  -- Fewer items in a queue, in their order.
  fewer :
      (qs : Queues)
      → Sub (state_of qs k).items (state_of s.queues k).items
      → Sub (pending (record s { queues = qs }) k) (pending s k ++ [])
  fewer qs h = rw append-nil (more_before (optional (popped (turn_of k s.turns))) h)

  shrinks :
      (qs : Queues) (j : String) (state : PromptQueueState)
      → Becomes s.queues qs j state
      → Sub state.items (state_of s.queues j).items
      → Sub (state_of qs k).items (state_of s.queues k).items
  shrinks qs j state b h = elim (Bool-cases (j == k)) [
    | inl e ↦
        subst (λ m. Sub (state_of qs m).items (state_of s.queues m).items) ((eq_iff j k).0 e)
          (rw b.here h)
    | inr d ↦ rw (b.elsewhere k (λ e. cc (==_true j k e))) (all_stay _)
  ]

  deleted :
      (j name : String) (r : Queues × Bool)
      → Deletes s.queues j name r
      → Sub (state_of r.0 k).items (state_of s.queues k).items
  deleted j name r (inl (_, e, _)) = rw e (all_stay _)
  deleted j name r (inr (_, (i, _, (c, b)))) =
      shrinks r.0 j _ b (rw c.whole (more_before c.before (Sublistᴰ.cons (all_stay c.behind))))

step-Kept :
    (s : System) → Inv s → OneEach s.queues → (e : Event) (k : String) → IsNoMove k e → Kept s e k
unfolding step
step-Kept s v o (arrives a) k d = same_list (step-Balanced s v (arrives a) k tt)
step-Kept s v o (enqueues a) k d = same_list (step-Balanced s v (enqueues a) k tt)
step-Kept s v o (returns j job msg now) k d =
    same_list (step-Balanced s v (returns j job msg now) k tt)
step-Kept s v o (drains j) k d = same_list (step-Balanced s v (drains j) k tt)
step-Kept s v o (starts j) k d = same_list (step-Balanced s v (starts j) k tt)
step-Kept s v o (requeues j) k d = same_list (step-Balanced s v (requeues j) k tt)
step-Kept s v o (fails j) k d = same_list (step-Balanced s v (fails j) k tt)
step-Kept s v o (completes sk agent) k d = same_list (step-Balanced s v (completes sk agent) k tt)
step-Kept s v o (moves j name delta) k d = same_list (step-Balanced s v (moves j name delta) k d)
step-Kept s v o (deletes j name) k d =
    fewer s k (delete_prompt_queue_item s.queues j name).0
      (deleted s k j name _ (delete_lem s.queues j name))
step-Kept s v o (clears j) k d =
    fewer s k (clear_prompt_queue s.queues j).0
      (shrinks s k _ j _ (clear_lem s.queues j).0 (Sublistᴰ.nil-sublist _))
step-Kept s v o (cancels sk local agent) k d =
    fewer s k (cancel_queued_prompts_for_session_switch s.queues sk local agent).0 (
      rw ((cancel_lem s.queues sk local agent o).0 k) (
        filter_leaves (λ item. not (is_cancelled sk local agent item)) (state_of s.queues k).items))

run-Kept :
    (s : System)
    → Inv s
    → OneEach s.queues
    → (es : List Event) (k : String) → All (IsNoMove k) es
    → Sub (all_taken s es k ++ pending (run s es) k) (pending s k ++ all_accepted s es k)
unfolding all_accepted all_taken run
run-Kept s v o [] k d = rw append-nil (all_stay (pending s k))
run-Kept s v o (e ∷ es) k d =
    let s' = step s e in
    let first = more_behind (all_accepted s' es k) (step-Kept s v o e k d.0) in
    let rest =
      more_before (taken s e k) (run-Kept s' (step-Inv s e v o) (step-OneEach s e o) es k d.1) in
    let joined =
      Sublistᴰ.trans
        (subst (λ zs. Sub (taken s e k ++ (all_taken s' es k ++ pending (run s' es) k)) zs)
          (sym (append_assoc (taken s e k) (pending s' k) (all_accepted s' es k))) rest)
        first in
    subst (λ zs. Sub zs (pending s k ++ (accepted s e k ++ all_accepted s' es k)))
      (sym (append_assoc (taken s e k) (all_taken s' es k) (pending (run s' es) k)))
      (subst (Sub (taken s e k ++ (all_taken s' es k ++ pending (run s' es) k)))
        (append_assoc (pending s k) (accepted s e k) (all_accepted s' es k)) joined)

-- From an empty engine, after any order of the steps of all chats, /queue deletions and clears and
-- cancellations on a session switch included, but with no /queue move in the chat: the prompts that
-- left the chat's queue to begin or to be given up, followed by those that still wait, stand in the
-- order in which the queue accepted them, and none stands there twice for one acceptance.
pub all_taken-Sublist :
    (es : List Event) (k : String)
    → All (IsNoMove k) es
    → Sublistᴰ (all_taken empty es k ++ pending (run empty es) k) (all_accepted empty es k)
unfolding turn_of get
all_taken-Sublist es k d = run-Kept empty empty-Inv tt es k d
