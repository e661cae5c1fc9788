-- ===== src/Correlator/Ticks.antt =====
-- internal/usecase/correlator.go: `evictLoop`, which `Start` starts and `Stop` ends.
use dns_flow.Prelude.{ℕ, Bool, false, List, [], ◌∷◌, ◌++◌}
use dns_flow.Correlator.{QueryCorrelator, Warning, evict}

-- A choice of the loop's `select`: the ticker fires at a time, or `done` is closed.
pub data Tick : Type 0 where
  fire : (now : ℕ) → Tick
  closed : Tick

pub record Eviction : Type 0 where
  pub correlator : QueryCorrelator
  pub warnings : List Warning
  pub running : Bool

unfoldable pub evict_ticks : List Tick → Eviction → Eviction
evict_ticks [] s = s
evict_ticks (closed ∷ ticks) s = record s { running = false }
evict_ticks (fire now ∷ ticks) s =
    let evicted = evict now s.correlator in
    evict_ticks ticks (record s { correlator = evicted.0; warnings = s.warnings ++ evicted.1 })
