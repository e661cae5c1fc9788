-- ===== src/Pipeline/Health.antt =====
-- internal/usecase/pipeline.go: `Health`, and what `Shutdown` does once all workers have returned.
use dns_flow.Prelude.{Text, codes, show, List, [], ◌∷◌, ◌++◌, length}
use dns_flow.Prelude.Dict.{Dict}
use dns_flow.Domain.Ports.{Storage, close_storages}
use dns_flow.Pipeline.Workers.{Pool}
use dns_flow.Correlator.Ticks.{Eviction, closed, evict_ticks}

unfoldable pub health : {A : Type 0} → Pool A → Dict Text
health s =
    (codes "pipeline", codes "running")
    ∷ (codes "queue", show (length s.queue) ++ b'/' ∷ show s.queue_size)
    ∷ []

-- The correlator's `Stop`, and then the storages.
unfoldable pub finish_shutdown :
    {W E : Type 0} → List (Storage W E) → Eviction → W → Eviction × (W × List (Text × E))
unfolding close_storages evict_ticks
finish_shutdown storages s w = (evict_ticks (closed ∷ []) s, close_storages storages w)
