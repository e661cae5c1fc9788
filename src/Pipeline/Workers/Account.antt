-- ===== src/Pipeline/Workers/Account.antt =====
-- internal/usecase/pipeline.go: the events between the queue and the workers.
use dns_flow.Prelude.{
  ℕ, zero, suc, ◌+◌, ◌≤◌, ◌≡◌, refl, Bool, List, [], ◌∷◌, ◌++◌, some, length, length-append,
  get_elem?, set, replicate, count, count-append, append_assoc, append-nil, ap, ◌∙◌, sym, arith,
}
use dns_flow.Pipeline.Workers.{
  Worker, idle, busy, exited, Pool, start, Step, accept, hand_over, discard_dying, discard_closed,
  discard_full, take_event, finish, leave_cancelled, leave_closed, cancel, close_die, close_queue,
  Reach, here, next,
}

module _ {ℓ} {A : Type ℓ} where
  -- The events that the workers are processing.
  pub in_flight : List (Worker A) → List A
  in_flight [] = []
  in_flight (idle ∷ ws) = in_flight ws
  in_flight (busy e ∷ ws) = e ∷ in_flight ws
  in_flight (exited ∷ ws) = in_flight ws

module _ {ℓ} {A : Type ℓ} (p : A → Bool) where
  count-busy :
      (ws : List (Worker A)) (i : ℕ) (e : A)
      → get_elem? ws i ≡ some idle
      → count p (in_flight (set ws i (busy e))) ≡ count p (e ∷ []) + count p (in_flight ws)
  unfolding in_flight count
  count-busy [] i e h = cc
  count-busy (idle ∷ ws) zero e h = ground arith
  count-busy (busy d ∷ ws) zero e h = cc
  count-busy (exited ∷ ws) zero e h = cc
  count-busy (idle ∷ ws) (suc i) e h = count-busy ws i e h
  count-busy (busy d ∷ ws) (suc i) e h = ground (arith, count-busy ws i e h)
  count-busy (exited ∷ ws) (suc i) e h = count-busy ws i e h

  count-idle :
      (ws : List (Worker A)) (i : ℕ) (e : A)
      → get_elem? ws i ≡ some (busy e)
      → count p (in_flight ws) ≡ count p (e ∷ []) + count p (in_flight (set ws i idle))
  unfolding in_flight count
  count-idle [] i e h = cc
  count-idle (idle ∷ ws) zero e h = cc
  count-idle (busy d ∷ ws) zero e h = ground arith
  count-idle (exited ∷ ws) zero e h = cc
  count-idle (idle ∷ ws) (suc i) e h = count-idle ws i e h
  count-idle (busy d ∷ ws) (suc i) e h = ground (arith, count-idle ws i e h)
  count-idle (exited ∷ ws) (suc i) e h = count-idle ws i e h

  count-exited :
      (ws : List (Worker A)) (i : ℕ)
      → get_elem? ws i ≡ some idle
      → count p (in_flight (set ws i exited)) ≡ count p (in_flight ws)
  unfolding in_flight count
  count-exited [] i h = refl
  count-exited (idle ∷ ws) zero h = refl
  count-exited (busy d ∷ ws) zero h = cc
  count-exited (exited ∷ ws) zero h = refl
  count-exited (idle ∷ ws) (suc i) h = count-exited ws i h
  count-exited (busy d ∷ ws) (suc i) h = ground (arith, count-exited ws i h)
  count-exited (exited ∷ ws) (suc i) h = count-exited ws i h

  -- Events enter the workers in the order in which they were accepted, and each that did is in flight
  -- or handled, as often as it was taken.
  pub record Balanced (s : Pool A) : Type ℓ where
    pub in_order : s.accepted ≡ s.taken ++ s.queue
    pub accounted : count p s.taken ≡ count p s.handled + count p (in_flight s.workers)
    pub bounded : length s.queue ≤ s.queue_size

  in_order_hand_over :
      (s : Pool A) (e : A)
      → s.queue ≡ []
      → s.accepted ≡ s.taken ++ s.queue
      → s.accepted ++ e ∷ [] ≡ (s.taken ++ e ∷ []) ++ s.queue
  in_order_hand_over s e empty h = rw (h) (
      ap (λ q. (s.taken ++ q) ++ e ∷ []) empty
      ∙ ap (λ l. l ++ e ∷ []) (append-nil s.taken)
      ∙ sym (append-nil (s.taken ++ e ∷ []))
      ∙ ap (λ q. (s.taken ++ e ∷ []) ++ q) (sym empty))

  Step-Balanced : {s t : Pool A} → Step s t → Balanced s → Balanced t
  Step-Balanced {s} (accept e alive room) b = record {
    in_order = rw (b.in_order, append_assoc) refl;
    accounted = b.accounted;
    bounded = omega (arith, length-append {ℓ} s.queue (e ∷ []));
  }
  Step-Balanced {s} (hand_over e i alive empty idle_i) b = record {
    in_order = in_order_hand_over s e empty b.in_order;
    accounted =
        grind
          (arith, count-append p s.taken (e ∷ []), count-busy s.workers i e idle_i, b.accounted);
    bounded = b.bounded;
  }
  Step-Balanced (discard_dying e h) b = record {
    in_order = b.in_order;
    accounted = b.accounted;
    bounded = b.bounded;
  }
  Step-Balanced (discard_closed e h) b = record {
    in_order = b.in_order;
    accounted = b.accounted;
    bounded = b.bounded;
  }
  Step-Balanced (discard_full e h c full) b = record {
    in_order = b.in_order;
    accounted = b.accounted;
    bounded = b.bounded;
  }
  Step-Balanced {s} (take_event i e rest h idle_i) b = record {
    in_order = rw (b.in_order, h, append_assoc) refl;
    accounted =
        grind
          (arith, count-append p s.taken (e ∷ []), count-busy s.workers i e idle_i, b.accounted);
    bounded = omega (arith, ap length h, b.bounded);
  }
  Step-Balanced {s} (finish i e busy_i) b = record {
    in_order = b.in_order;
    accounted =
        grind
          (arith, count-append p s.handled (e ∷ []), count-idle s.workers i e busy_i, b.accounted);
    bounded = b.bounded;
  }
  Step-Balanced {s} (leave_cancelled i h idle_i) b = record {
    in_order = b.in_order;
    accounted = rw (count-exited s.workers i idle_i) b.accounted;
    bounded = b.bounded;
  }
  Step-Balanced {s} (leave_closed i h empty idle_i) b = record {
    in_order = b.in_order;
    accounted = rw (count-exited s.workers i idle_i) b.accounted;
    bounded = b.bounded;
  }
  Step-Balanced cancel b = record {
    in_order = b.in_order;
    accounted = b.accounted;
    bounded = b.bounded;
  }
  Step-Balanced (close_die h) b = record {
    in_order = b.in_order;
    accounted = b.accounted;
    bounded = b.bounded;
  }
  Step-Balanced (close_queue h) b = record {
    in_order = b.in_order;
    accounted = b.accounted;
    bounded = b.bounded;
  }

  in_flight-replicate : (n : ℕ) → in_flight {A = A} (replicate n idle) ≡ []
  unfolding in_flight
  in_flight-replicate zero = refl
  in_flight-replicate (suc n) = in_flight-replicate n

  start-Balanced : (workers queue_size : ℕ) → Balanced (start workers queue_size)
  unfolding start count
  start-Balanced workers queue_size = record {
    in_order = refl;
    accounted = rw (in_flight-replicate workers) (omega arith);
    bounded = omega arith;
  }

  Reach-of_Balanced : {s t : Pool A} → Balanced s → Reach s t → Balanced t
  Reach-of_Balanced b here = b
  Reach-of_Balanced b (next r st) = Step-Balanced st (Reach-of_Balanced b r)

  -- In every state that is reachable from the start, in any interleaving of calls of `Process`, of
  -- the workers and of `Shutdown`: the queue never holds more than `queue_size` events; the events
  -- that were accepted are, in the order of acceptance, those that workers took and then those that
  -- are still in the queue (where they may stay after `Shutdown`); and of the taken ones exactly as
  -- many pass any test `p` as do of the handled ones and the ones in flight together, so that none
  -- that was taken is lost or processed twice. In which order the workers end is left open.
  pub Reach-Balanced :
      (workers queue_size : ℕ) {s : Pool A} → Reach (start workers queue_size) s → Balanced s
  Reach-Balanced workers queue_size r = Reach-of_Balanced (start-Balanced workers queue_size) r
