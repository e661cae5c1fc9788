-- ===== src/Kafka/Producer/Retry.antt =====
-- internal/adapter/outbound/kafka/producer.go: the attempts of `flushBatch`.
use dns_flow.Prelude.{
  ℕ, zero, suc, ◌+◌, ◌≤◌, ◌<◌, ◌≡◌, refl, subst, Bool-cases, ◌==◌, ==_iff, ltb, ltb→lt, true, false,
  Option, Option-cases, none, some, inl, inr, ◌⊎◌, arith,
}
use dns_flow.Kafka.Errors.{KafkaError, is_retriable, IsTransient, is_retriable_iff}
use dns_flow.Kafka.Producer.{Flushed, attempt_loop, flush_batch}

module _ (outcome : ℕ → Option KafkaError) where
  abbrev pub TransientAt : ℕ → Type 0
  TransientAt k = (e : KafkaError) × (outcome k ≡ some e) × IsTransient e

  -- An attempt stands before `a`, or not before `b`, or it ended in a transient error.
  abbrev pub TransientUpTo : ℕ → ℕ → Type 0
  TransientUpTo a b = (k : ℕ) → (k < a) ⊎ (b ≤ k) ⊎ TransientAt k

  -- What the attempts from `a` on come to, where `n` of them are allowed: `last` is the number of
  -- the last one, and all before it failed with a transient error. Then it succeeded, or it failed
  -- with an error that is not transient, or it was the last one allowed.
  pub record Retried (a n : ℕ) (r : Flushed) : Type 0 where
    pub last : ℕ
    pub counted : r.attempts ≡ last + 1
    pub start : a ≤ last
    pub within : last < a + n
    pub earlier : TransientUpTo a last
    pub ended :
        ((outcome last ≡ none) × (r.error ≡ none))
        ⊎ ((e : KafkaError) × (outcome last ≡ some e)
            × (r.error ≡ some e)
            × ((¬ IsTransient e) ⊎ (r.attempts ≡ a + n)))

  none_earlier : (a : ℕ) → TransientUpTo a a
  none_earlier a k = elim (Bool-cases (ltb k a)) [
    | inl before ↦ inl (ltb→lt k a before)
    | inr after ↦ inr (inl (ground arith))
  ]

  one_earlier :
      (a b : ℕ) (e : KafkaError)
      → outcome a ≡ some e
      → IsTransient e
      → TransientUpTo (a + 1) b
      → TransientUpTo a b
  one_earlier a b e h t rest k = elim (rest k) [
    | inl before ↦ elim (Bool-cases (a == k)) [
      | inl same ↦ inr (inr (e, rw (← (==_iff a k).0 same) h, t))
      | inr other ↦ inl (ground arith)
    ]
    | inr later ↦ inr later
  ]

  not-IsTransient : (e : KafkaError) → is_retriable e ≡ false → ¬ IsTransient e
  not-IsTransient e h t = let yes' = (is_retriable_iff e).1 t in cc

  loop_success :
      (n a : ℕ) (err : Option KafkaError)
      → outcome a ≡ none
      → attempt_loop outcome (suc n) a err ≡ record { error = none; attempts = a + 1 }
  unfolding attempt_loop
  loop_success n a err h = rw (h, attempt_loop)

  loop_final :
      (n a : ℕ) (err : Option KafkaError) (e : KafkaError)
      → outcome a ≡ some e
      → is_retriable e ≡ false
      → attempt_loop outcome (suc n) a err ≡ record { error = some e; attempts = a + 1 }
  unfolding attempt_loop
  loop_final n a err e h f = rw (h, f, attempt_loop)

  loop_again :
      (n a : ℕ) (err : Option KafkaError) (e : KafkaError)
      → outcome a ≡ some e
      → is_retriable e ≡ true
      → attempt_loop outcome (suc n) a err ≡ attempt_loop outcome n (a + 1) (some e)
  unfolding attempt_loop
  loop_again n a err e h f = rw (h, f, attempt_loop)

  Retried-here :
      (a n : ℕ) {r : Flushed}
      → r.attempts ≡ a + 1
      → ((outcome a ≡ none) × (r.error ≡ none))
        ⊎ ((e : KafkaError) × (outcome a ≡ some e)
            × (r.error ≡ some e)
            × ((¬ IsTransient e) ⊎ (r.attempts ≡ a + suc n)))
      → Retried a (suc n) r
  Retried-here a n c ended = record {
    last = a;
    counted = c;
    start = omega arith;
    within = omega arith;
    earlier = none_earlier a;
    ended = ended;
  }

  Retried-later :
      (a n : ℕ) (e : KafkaError) {r : Flushed}
      → outcome a ≡ some e
      → IsTransient e
      → Retried (a + 1) n r
      → Retried a (suc n) r
  Retried-later a n e {r} h t ih = record {
    last = ih.last;
    counted = ih.counted;
    start = omega (arith, ih.start);
    within = omega (arith, ih.within);
    earlier = one_earlier a ih.last e h t ih.earlier;
    ended =
        subst
          (λ b.
            ((outcome ih.last ≡ none) × (r.error ≡ none))
            ⊎ ((e : KafkaError) × (outcome ih.last ≡ some e)
                × (r.error ≡ some e)
                × ((¬ IsTransient e) ⊎ (r.attempts ≡ b))))
          shifted ih.ended;
  }
    where
      shifted : a + 1 + n ≡ a + suc n
      shifted = omega arith

  -- One attempt, given what the rounds after it come to.
  attempt_split :
      (n a : ℕ) (err : Option KafkaError)
      → ((e : KafkaError)
          → outcome a ≡ some e
          → IsTransient e
          → Retried a (suc n) (attempt_loop outcome n (a + 1) (some e)))
      → Retried a (suc n) (attempt_loop outcome (suc n) a err)
  attempt_split n a err later = elim (Option-cases (outcome a)) [
    | inl ok ↦ rw (loop_success n a err ok) (Retried-here a n refl (inl (ok, refl)))
    | inr (e, failed) ↦ elim (Bool-cases (is_retriable e)) [
      | inl again ↦
          rw (loop_again n a err e failed again) (later e failed ((is_retriable_iff e).0 again))
      | inr final ↦
          rw (loop_final n a err e failed final)
            (Retried-here a n refl (inr (e, failed, refl, inl (not-IsTransient e final))))
    ]
  ]

  no_rounds :
      (a : ℕ) (err : Option KafkaError)
      → attempt_loop outcome zero a err ≡ record { error = err; attempts = a }
  unfolding attempt_loop
  no_rounds a err = refl

  attempt_loop-Retried :
      (n a : ℕ) (err : Option KafkaError) → Retried a (suc n) (attempt_loop outcome (suc n) a err)
  attempt_loop-Retried zero a err = attempt_split zero a err (λ e failed t.
      rw (no_rounds (a + 1) (some e))
        (Retried-here a zero refl (inr (e, failed, refl, inr (omega arith)))))
  attempt_loop-Retried (suc n) a err =
      attempt_split (suc n) a err
        (λ e failed t. Retried-later a (suc n) e failed t (attempt_loop-Retried n (a + 1) (some e)))

  -- `flushBatch` calls `WriteMessages` at least once and at most three times. Every call before the
  -- last failed with a transient error; the last one succeeded, and then no error is logged, or it
  -- failed with the error that is logged, which is not transient unless three calls were made.
  pub flush_batch-Retried : Retried 0 3 (flush_batch outcome)
  unfolding flush_batch
  flush_batch-Retried = attempt_loop-Retried 2 0 none
