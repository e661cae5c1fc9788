-- ===== src/Pipeline/Workers.antt =====
-- internal/usecase/pipeline.go: the queue, the workers and the shutdown, interleaved in any order.
--
-- One step is one choice of a `select`, one return of `processEvent`, or one statement of
-- `Shutdown`. A `select` with several cases ready takes any of them. The lists `accepted`, `taken`,
-- `handled` and `dropped` record what happened; the code does not hold them.
pub mod Account
pub mod Drain
use dns_flow.Prelude.{
  ℕ, ◌≤◌, ◌<◌, ◌≡◌, Bool, true, false, List, [], ◌∷◌, ◌++◌, some, length, get_elem?, set, replicate,
}

module _ {ℓ} where
  -- A worker waits in its `select`, runs `processEvent`, or has returned.
  pub data Worker (A : Type ℓ) : Type ℓ where
    idle : Worker A
    busy : A → Worker A
    exited : Worker A

  pub record Pool (A : Type ℓ) : Type ℓ where
    pub queue : List A
    pub queue_size : ℕ
    pub die_closed : Bool
    pub queue_closed : Bool
    pub cancelled : Bool
    pub workers : List (Worker A)
    pub accepted : List A
    pub taken : List A
    pub handled : List A
    pub dropped : List A

module _ {ℓ} {A : Type ℓ} where
  -- `NewPipeline` and `Run`: an empty queue and the workers in their `select`.
  unfoldable pub start : (workers queue_size : ℕ) → Pool A
  start workers queue_size = record {
    queue = [];
    queue_size = queue_size;
    die_closed = false;
    queue_closed = false;
    cancelled = false;
    workers = replicate workers idle;
    accepted = [];
    taken = [];
    handled = [];
    dropped = [];
  }

  pub data Step (s : Pool A) : Pool A → Type ℓ where
    -- `Process`: the queue has room.
    accept :
        (e : A)
        → s.queue_closed ≡ false
        → length s.queue < s.queue_size
        → Step s (record s { queue = s.queue ++ e ∷ []; accepted = s.accepted ++ e ∷ [] })
    -- `Process`: a worker waits at the empty queue and takes the event at once.
    hand_over :
        (e : A) (i : ℕ)
        → s.queue_closed ≡ false
        → s.queue ≡ []
        → get_elem? s.workers i ≡ some idle
        → Step s (record s {
          workers = set s.workers i (busy e);
          accepted = s.accepted ++ e ∷ [];
          taken = s.taken ++ e ∷ [];
        })
    -- `Process`: the pipeline is shutting down.
    discard_dying :
        (e : A) → s.die_closed ≡ true → Step s (record s { dropped = s.dropped ++ e ∷ [] })
    -- `Process`: the send on the closed queue panics, which is recovered.
    discard_closed :
        (e : A) → s.queue_closed ≡ true → Step s (record s { dropped = s.dropped ++ e ∷ [] })
    -- `Process`: nothing is ready, and the event is dropped with a warning.
    discard_full :
        (e : A)
        → s.die_closed ≡ false
        → s.queue_closed ≡ false
        → s.queue_size ≤ length s.queue
        → Step s (record s { dropped = s.dropped ++ e ∷ [] })
    -- `worker`: receives from the queue, also while its context is cancelled.
    take_event :
        (i : ℕ) (e : A) (rest : List A)
        → s.queue ≡ e ∷ rest
        → get_elem? s.workers i ≡ some idle
        → Step s (record s {
          queue = rest;
          workers = set s.workers i (busy e);
          taken = s.taken ++ e ∷ [];
        })
    -- `worker`: `processEvent` returns.
    finish :
        (i : ℕ) (e : A)
        → get_elem? s.workers i ≡ some (busy e)
        → Step s (record s { workers = set s.workers i idle; handled = s.handled ++ e ∷ [] })
    -- `worker`: `<-ctx.Done()`.
    leave_cancelled :
        (i : ℕ)
        → s.cancelled ≡ true
        → get_elem? s.workers i ≡ some idle
        → Step s (record s { workers = set s.workers i exited })
    -- `worker`: the queue is closed and empty.
    leave_closed :
        (i : ℕ)
        → s.queue_closed ≡ true
        → s.queue ≡ []
        → get_elem? s.workers i ≡ some idle
        → Step s (record s { workers = set s.workers i exited })
    -- The first three statements of `Shutdown`, in their order.
    cancel : Step s (record s { cancelled = true })
    close_die : s.cancelled ≡ true → Step s (record s { die_closed = true })
    close_queue : s.die_closed ≡ true → Step s (record s { queue_closed = true })

  pub data Reach (s : Pool A) : Pool A → Type ℓ where
    here : Reach s s
    next : {t u : Pool A} → Reach s t → Step t u → Reach s u

  pub Reach-trans : {s t u : Pool A} → Reach s t → Reach t u → Reach s u
  Reach-trans r here = r
  Reach-trans r (next q st) = next (Reach-trans r q) st
