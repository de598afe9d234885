-- ===== src/Lib.antt =====
-- A verification library for echo-client, the Go program that connects chat platforms to coding
-- agents. It models the parts of core/ that keep state between messages and must keep it right while
-- many goroutines call them.
--
-- The parts, and the files that model them:
--   * Prelude: shared names, tests on numbers, lists, text (TrimSpace, ToLower, decimal numbers) and
--     Dict, Go's maps with string keys.
--   * Message: core/message.go, the message that a platform hands over.
--   * PromptQueue: core/prompt_queue.go. A chat has a FIFO of prompts and a gate, Running, that lets one
--     turn through at a time. PromptQueue.antt has the data and the ways in (beginPromptTurnOrEnqueue,
--     enqueuePrompt, enqueuePromptLocked), Turns.antt the ways out (completePromptTurn,
--     popNextQueuedPrompt, requeuePromptFront, failQueuedPrompt), Commands.antt the /queue commands and
--     the cancellation on a session switch. Each is a function on Queues, the two fields of the Engine
--     that promptQueueMu guards. System.antt is the system of callers: begin, enqueuePrompt, pop,
--     requeue, failure, completion, the return of a cron turn in ExecuteCronJob, the /queue commands and
--     the cancellation are each one step, and a run is any sequence of steps; a turn completes under
--     the key it began with. Sections that only read are no steps, nor is markPromptQueueRunning.
--   * Session: core/session.go. Session.antt is one session with its history; Manager.antt and
--     Registry.antt are the operations of SessionManager and the save, as functions on a record with
--     the fields of the struct, its file and whether a write succeeds. A *Session is an entry of the
--     map, and a write through the pointer is a write to the map.
--   * Job: core/job.go, the manager of background jobs: Manager.antt has registration, Start, Cancel and
--     the dispatch, Run.antt the parts of runJob that hold the lock, events and finishJob, Restart.antt
--     load and the listing of projects, Dispatch.antt the order of dispatch. Where the source starts a
--     goroutine, the function returns the id of the job; System.antt has those goroutines, each section
--     under the lock as one step.
--   * Cron: core/cron.go. Cron.antt has the job with the fields that can be changed, Interval.antt the
--     intervals of loops and validateCronJob, Store.antt CronStore, Scheduler.antt CronScheduler over
--     the third-party schedule library, whose operations and documented behaviour are the records of
--     Scheduler/Library.antt. The operations run one after another; System.antt has any sequence.
--   * Relay: core/relay.go, the bindings of bots in a chat and the checks of Send; what HandleRelay
--     answers is an argument.
--   * Review and SplitMessage: core/engine.go, the cut of the texts of a revision prompt to a number
--     of characters, and the split of a long message into pieces of a number of bytes.
--   * Progress: core/progress_compact.go, the writer of one progress message and its texts.
--   * Dedup: core/dedup.go. RateLimit: core/ratelimit.go. Collect: core/collect.go, with the pending
--     attachments of core/engine.go.
-- The queue and the collections meet the sessions only through the ids and keys they store.
--
-- Conventions: a map is an association list, and a read of a missing key is written out. The clock, the
-- random ids, what a runner returns and what a write to a file does are arguments or fields. Texts are
-- Unicode characters. promptQueueSeq wraps at 2^64; the session counter is the 64-bit pattern of its
-- int64, and theorems on new sessions ask that it does not overflow. Other numbers, which count items
-- in memory, are not bounded. A Go slice that is never shared is a list, and a copy is the value itself.
-- What a file holds is the record that is encoded to it. The parsing of an index in /queue stops at the
-- first character that is not a digit, as fmt.Sscanf does.
--
-- Fuel: the marker of a cut text names the number of characters left out, which changes its own length;
-- that number grows in each round and stays below the length of the text, which is the fuel. The split
-- of a message takes a byte at least in each round, and the length of the text is the fuel. The digits
-- of a number are taken with the number as fuel. Every other loop is over a list, over a text or over
-- the 16 attempts at a job id.
--
-- Not modelled: the load of the sessions, the engine's command handlers, agents, platforms, the posts of
-- the relay, the network protocols, rendering and everything that only calls external programs. Turns
-- that
-- processInteractiveMessageWithQueueLifecycle forces through markPromptQueueRunning are outside the
-- system of turns, since they take a gate without asking. Sorting of job lists is left out.
pub mod Prelude
pub mod Message
pub mod PromptQueue
pub mod Session
pub mod Job
pub mod Dedup
pub mod RateLimit
pub mod Collect
pub mod Review
pub mod SplitMessage
pub mod Cron
pub mod Relay
pub mod Progress
