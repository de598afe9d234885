-- ===== src/PromptQueue/System/Fifo.antt =====
-- Arrival order is the order in which queued prompts leave: first in, first out, none lost and none
-- twice, through requeues and failures, as long as no user edits the queue.
use mathlib.Core.List.{append_assoc, append-nil}
use echo_client.Prelude.{All, String, ◌≡◌, sym, ap, ◌∙◌, ◌≢◌, List, [], ◌∷◌, ◌++◌}
use echo_client.Prelude.Dict.{get}
use echo_client.PromptQueue.{QueuedPrompt}
use echo_client.PromptQueue.Commands.Edit.{delete_lem, move_lem, clear_lem}
use echo_client.PromptQueue.System.Keys.{OneEach, step-OneEach}
use echo_client.PromptQueue.System.{
  System, Event, arrives, drains, starts, requeues, fails, completes, enqueues, returns, deletes,
  moves, clears, cancels, turn_of, step, run, empty,
}
use echo_client.PromptQueue.System.Invariant.{Inv}
use echo_client.PromptQueue.System.Gate.{step-Inv, empty-Inv}
use echo_client.PromptQueue.System.Books.{pending, accepted, taken, Balanced}
use echo_client.PromptQueue.System.Balance.{
  starts-Balanced, fails-Balanced, requeues-Balanced, completes-Balanced, drains-Balanced,
  enqueues-Balanced, returns-Balanced, arrives-Balanced, edited, deleted, moved,
}

-- An event is no edit of a chat: no deletion, move or clear of its queue, and no cancellation.
abbrev pub IsNoEdit : String → Event → Type 0
IsNoEdit k (deletes j name) = j ≢ k
IsNoEdit k (moves j name delta) = j ≢ k
IsNoEdit k (clears j) = j ≢ k
IsNoEdit k (cancels session_key local agent) = ¬ Unit {0}
IsNoEdit k e = Unit

pub step-Balanced : (s : System) → Inv s → (e : Event) (k : String) → IsNoEdit k e → Balanced s e k
unfolding step
step-Balanced s v (arrives a) k d = arrives-Balanced s v a k
step-Balanced s v (enqueues a) k d = enqueues-Balanced s v a k
step-Balanced s v (returns j job msg now) k d = returns-Balanced s v j job msg now k
step-Balanced s v (drains j) k d = drains-Balanced s v j k
step-Balanced s v (starts j) k d = starts-Balanced s v j k
step-Balanced s v (requeues j) k d = requeues-Balanced s v j k
step-Balanced s v (fails j) k d = fails-Balanced s v j k
step-Balanced s v (completes sk agent) k d = completes-Balanced s v sk agent k
step-Balanced s v (deletes j name) k d = deleted s v j k name _ d (delete_lem s.queues j name)
step-Balanced s v (moves j name delta) k d =
    moved s v j k name delta _ d (move_lem s.queues j name delta)
step-Balanced s v (clears j) k d = edited s v j k _ _ d (clear_lem s.queues j).0
step-Balanced s v (cancels sk local agent) k d = absurd (d tt)

-- What a run accepts, and what it takes out, in order.
unfoldable pub all_accepted : System → List Event → String → List QueuedPrompt
all_accepted s [] k = []
all_accepted s (e ∷ es) k = accepted s e k ++ all_accepted (step s e) es k

unfoldable pub all_taken : System → List Event → String → List QueuedPrompt
all_taken s [] k = []
all_taken s (e ∷ es) k = taken s e k ++ all_taken (step s e) es k

run-Balanced :
    (s : System)
    → Inv s
    → OneEach s.queues
    → (es : List Event) (k : String) → All (IsNoEdit k) es
    → pending s k ++ all_accepted s es k ≡ all_taken s es k ++ pending (run s es) k
unfolding all_accepted all_taken run
run-Balanced s v o [] k d = append-nil (pending s k)
run-Balanced s v o (e ∷ es) k d =
    let s' = step s e in
    sym (append_assoc (pending s k) (accepted s e k) (all_accepted s' es k))
    ∙ ap (λ xs. xs ++ all_accepted s' es k) (step-Balanced s v e k d.0)
    ∙ append_assoc (taken s e k) (pending s' k) (all_accepted s' es k)
    ∙ ap (◌++◌ (taken s e k)) (run-Balanced s' (step-Inv s e v o) (step-OneEach s e o) es k d.1)
    ∙ sym (append_assoc (taken s e k) (all_taken s' es k) (pending (run s' es) k))

-- From an empty engine, after any order of arrivals, enqueues, drains, starts, requeues, failures,
-- completions and returns of cron turns in all chats, and of /queue deletions, moves and clears in the
-- other chats, with no cancellation on a session switch: the prompts that a chat's queue accepted are
-- exactly those that left it, to begin or to be given up, in the order of acceptance, followed by those
-- that still wait.
pub fifo :
    (es : List Event) (k : String)
    → All (IsNoEdit k) es
    → all_accepted empty es k ≡ all_taken empty es k ++ pending (run empty es) k
unfolding turn_of get
fifo es k d = run-Balanced empty empty-Inv tt es k d
