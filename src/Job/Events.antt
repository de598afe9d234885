-- ===== src/Job/Events.antt =====
-- core/job.go: the buffer of events that a job keeps.
use echo_client.Prelude.{
  ℕ, zero, suc, ◌+◌, ◌-◌, ◌≤◌, ◌≡◌, ◌∙◌, List, [], ◌∷◌, ◌++◌, arith, length, drop, length-append,
  length-drop,
}
use echo_client.Job.{Job, JobEvent}
use echo_client.Job.Run.{buffer_event, with_event, max_buffered_job_events}

abbrev pub with_events : Job → List JobEvent → Job
with_events job [] = job
with_events job (e ∷ es) = with_events (with_event job e) es

-- The events are numbered one after the other, up to the count.
abbrev pub NumberedFrom : ℕ → List JobEvent → Type 0
NumberedFrom n [] = Unit {0}
NumberedFrom n (e ∷ es) = (e.index ≡ n) × NumberedFrom (suc n) es

NumberedFrom-append :
    (n : ℕ) (es : List JobEvent) (e : JobEvent)
    → NumberedFrom n es
    → e.index ≡ n + length es
    → NumberedFrom n (es ++ e ∷ [])
NumberedFrom-append n [] e h i = (omega (arith, i), tt)
NumberedFrom-append n (x ∷ es) e (h, hs) i =
    (h, NumberedFrom-append (suc n) es e hs (omega (arith, i)))

NumberedFrom-drop :
    (n k : ℕ) (es : List JobEvent)
    → NumberedFrom n es
    → k ≤ length es
    → NumberedFrom (n + k) (drop k es)
NumberedFrom-drop n zero [] h le = tt
NumberedFrom-drop n (suc k) [] h le = tt
NumberedFrom-drop n zero (x ∷ es) h le = let e : n + 0 ≡ n = omega arith in rw e h
NumberedFrom-drop n (suc k) (x ∷ es) (h, hs) le =
    let e : n + suc k ≡ suc n + k = omega arith in
    rw e (NumberedFrom-drop (suc n) k es hs (omega (arith, le)))

abbrev pub Buffered : Job → Type 0
Buffered job =
    (length job.events ≤ job.event_count)
    × (length job.events ≤ max_buffered_job_events)
    × NumberedFrom (job.event_count - length job.events) job.events

with_event-Buffered : (job : Job) (e : JobEvent) → Buffered job → Buffered (with_event job e)
unfolding with_event buffer_event
with_event-Buffered job e (le, cap, num) =
    let e' : JobEvent = record e { index = job.event_count } in
    let all = job.events ++ e' ∷ [] in
    let n = job.event_count - length job.events in
    let k = length all - 200 in
    let len : length all ≡ length job.events + 1 = length-append job.events (e' ∷ []) in
    let rest : length (drop k all) ≡ length all - k = length-drop k all in
    let numbered = NumberedFrom-append n job.events e' num (omega (arith, le)) in
    let cut = NumberedFrom-drop n k all numbered (omega (arith, len)) in
    let base : job.event_count + 1 - length (drop k all) ≡ n + k =
      omega (arith, len, rest, le, cap) in
    (omega (arith, len, rest, le), omega (arith, len, rest, cap), rw base cut)

counted :
    (j : Job) (x : JobEvent) (n : ℕ) → (with_event j x).event_count + n ≡ j.event_count + suc n
unfolding with_event
counted j x n = omega arith

-- However many events are recorded for a job, it keeps at most 200, its count grows by one for each,
-- and the kept ones carry consecutive indices that end right below the count. The job starts with a
-- buffer of which this holds, such as an empty one.
pub with_events-Buffered :
    (job : Job) (es : List JobEvent)
    → Buffered job
    → Buffered (with_events job es)
      × ((with_events job es).event_count ≡ job.event_count + length es)
with_events-Buffered job [] b = (b, omega arith)
with_events-Buffered job (e ∷ es) b =
    let (b', count) = with_events-Buffered (with_event job e) es (with_event-Buffered job e b) in
    (b', count ∙ counted job e (length es))
