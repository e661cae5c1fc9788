-- ===== src/Pipeline/Workers/Drain.antt =====
-- internal/usecase/pipeline.go: the queue at the shutdown.
use dns_flow.Prelude.{
  ℕ, zero, suc, ◌≡◌, refl, subst, true, List, [], ◌∷◌, ◌++◌, some, length, get_elem?, set, map, All,
  append_assoc, append-nil, ap, ◌∙◌, arith,
}
use dns_flow.Pipeline.Workers.{
  Worker, idle, busy, exited, Pool, take_event, finish, leave_cancelled, Reach, here, next,
  Reach-trans,
}

module _ {ℓ} {A : Type ℓ} where
  set-set : (ws : List (Worker A)) (i : ℕ) (v w : Worker A) → set (set ws i v) i w ≡ set ws i w
  set-set [] i v w = refl
  set-set (x ∷ ws) zero v w = refl
  set-set (x ∷ ws) (suc i) v w = ap (λ r. x ∷ r) (set-set ws i v w)

  set-get_elem? :
      (ws : List (Worker A)) (i : ℕ) (v : Worker A) → get_elem? ws i ≡ some v → set ws i v ≡ ws
  set-get_elem? [] i v h = refl
  set-get_elem? (x ∷ ws) zero v h = cc
  set-get_elem? (x ∷ ws) (suc i) v h = ap (λ r. x ∷ r) (set-get_elem? ws i v h)

  get_elem?-set :
      (ws : List (Worker A)) (i : ℕ) (v w : Worker A)
      → get_elem? ws i ≡ some v
      → get_elem? (set ws i w) i ≡ some w
  get_elem?-set [] i v w h = cc
  get_elem?-set (x ∷ ws) zero v w h = refl
  get_elem?-set (x ∷ ws) (suc i) v w h = get_elem?-set ws i v w h

  -- The state after one worker has processed a run of events from the front of the queue.
  drained : Pool A → List A → List A → Pool A
  drained s es rest = record s { queue = rest; taken = s.taken ++ es; handled = s.handled ++ es }

  handle_one :
      (s : Pool A) (i : ℕ) (e : A) (rest : List A)
      → s.queue ≡ e ∷ rest
      → get_elem? s.workers i ≡ some idle
      → Reach s (drained s (e ∷ []) rest)
  unfolding drained
  handle_one s i e rest h idle_i =
      let taken = record s {
        queue = rest;
        workers = set s.workers i (busy e);
        taken = s.taken ++ e ∷ [];
      } in
      let back : set (set s.workers i (busy e)) i idle ≡ s.workers =
        set-set s.workers i (busy e) idle ∙ set-get_elem? s.workers i idle idle_i in
      subst
        (λ ws. Reach s (record s {
          queue = rest;
          workers = ws;
          taken = s.taken ++ e ∷ [];
          handled = s.handled ++ e ∷ [];
        }))
        back
        (next (next here (take_event i e rest h idle_i))
          (finish i e (get_elem?-set s.workers i idle (busy e) idle_i)))

  drain_queue :
      (q : List A) (s : Pool A) (i : ℕ)
      → s.queue ≡ q
      → get_elem? s.workers i ≡ some idle
      → Reach s (drained s q [])
  unfolding drained
  drain_queue [] s i h idle_i =
      let same : s ≡ drained s [] [] =
        unfold drained in ground (arith, append-nil s.taken, append-nil s.handled) in
      subst (λ t. Reach s t) same here
  drain_queue (e ∷ q) s i h idle_i = simp append_assoc at (
      Reach-trans (handle_one s i e q h idle_i)
        (drain_queue q (drained s (e ∷ []) q) i refl idle_i))

  -- From any state in which some worker waits, the queue can be emptied: that worker takes the
  -- events that wait, in their order, and handles every one, whatever `Shutdown` has done so far.
  pub Reach-drained :
      (s : Pool A) (i : ℕ)
      → get_elem? s.workers i ≡ some idle
      → (t : Pool A) × Reach s t
        × (t.queue ≡ [])
        × (t.handled ≡ s.handled ++ s.queue)
        × (t.dropped ≡ s.dropped)
  unfolding drained
  Reach-drained s i idle_i =
      (drained s s.queue [], drain_queue s.queue s i refl idle_i, refl, refl, refl)

  get_elem?-append :
      (pre post : List (Worker A)) (w : Worker A)
      → get_elem? (pre ++ w ∷ post) (length pre) ≡ some w
  get_elem?-append [] post w = refl
  get_elem?-append (x ∷ pre) post w = get_elem?-append pre post w

  set-append :
      (pre post : List (Worker A)) (v w : Worker A)
      → set (pre ++ v ∷ post) (length pre) w ≡ (pre ++ w ∷ []) ++ post
  set-append [] post v w = refl
  set-append (x ∷ pre) post v w = ap (λ r. x ∷ r) (set-append pre post v w)

  leave_everyone :
      (post pre : List (Worker A)) (s : Pool A)
      → s.cancelled ≡ true
      → All (λ w. w ≡ idle) post
      → s.workers ≡ pre ++ post
      → Reach s (record s { workers = pre ++ map (λ _. exited) post })
  leave_everyone [] pre s h idles e =
      let same : s ≡ record s { workers = pre ++ [] } = ground (arith, e) in
      subst (λ t. Reach s t) same here
  leave_everyone (w ∷ post) pre s h (w_idle, idles) e =
      let at_end : get_elem? s.workers (length pre) ≡ some idle =
        rw (e, get_elem?-append pre post w) (ap some w_idle) in
      let moved : set s.workers (length pre) exited ≡ (pre ++ exited ∷ []) ++ post =
        rw (e) (set-append pre post w exited) in
      let rest =
        leave_everyone post (pre ++ exited ∷ [])
          (record s { workers = set s.workers (length pre) exited }) h idles moved in
      simp append_assoc at (Reach-trans (next here (leave_cancelled (length pre) h at_end)) rest)

  exited_workers :
      (ws : List (Worker A))
      → All (λ (w : Worker A). w ≡ exited) (map (λ (_ : Worker A). exited) ws)
  exited_workers [] = tt
  exited_workers (w ∷ ws) = (refl, exited_workers ws)

  -- `Shutdown` may lose what is queued: from any state in which the context is cancelled and every
  -- worker waits in its `select`, all workers can return with the queue as it is, however many
  -- events it holds, and none of them handled.
  pub Reach-abandoned :
      (s : Pool A)
      → s.cancelled ≡ true
      → All (λ w. w ≡ idle) s.workers
      → (t : Pool A) × Reach s t
        × All (λ w. w ≡ exited) t.workers
        × (t.queue ≡ s.queue)
        × (t.handled ≡ s.handled)
  Reach-abandoned s h idles = (
    record s { workers = map (λ _. exited) s.workers },
    leave_everyone s.workers [] s h idles refl,
    exited_workers s.workers,
    refl,
    refl,
  )
