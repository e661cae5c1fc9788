-- ===== src/Correlator/Evict.antt =====
-- internal/usecase/correlator.go: the loop of `evict`, which deletes while it walks over the
-- entries.
use dns_flow.Prelude.{
  ℕ, ◌-◌, ◌/◌, ◌≡◌, refl, ◌∙◌, Text, text_eq, text_eq_iff, Bool, false, ◌&&◌, ◌||◌, List, [], ◌∷◌,
  ◌++◌, Option, none, some, if◌then◌else◌, arith,
}
use dns_flow.Prelude.Dict
use dns_flow.Prelude.Dict.{Dict, UniqueKeys, Fresh, lookup-delete}
use dns_flow.Correlator.{QueryEntry, QueryCorrelator, Warning, is_stale, evict_loop, evict}

-- A stale entry stands at the key.
stale_at : ℕ → ℕ → Text → List (Text × QueryEntry) → Bool
stale_at now ttl j [] = false
stale_at now ttl j ((k, entry) ∷ rest) =
    (text_eq k j && is_stale now ttl entry) || stale_at now ttl j rest

abbrev pub keep_fresh : ℕ → ℕ → Option QueryEntry → Option QueryEntry
keep_fresh now ttl none = none
keep_fresh now ttl (some entry) = if is_stale now ttl entry then none else some entry

lookup-evict_loop :
    (now ttl : ℕ) (l : List (Text × QueryEntry)) (m : Dict QueryEntry) (ws : List Warning)
    → (j : Text)
    → Dict.lookup j (evict_loop now ttl l m ws).0
      ≡ (if stale_at now ttl j l then none else Dict.lookup j m)
unfolding evict_loop stale_at
lookup-evict_loop now ttl [] m ws j = refl
lookup-evict_loop now ttl ((k, entry) ∷ rest) m ws j = ground (
  arith,
  lookup-evict_loop now ttl rest (if is_stale now ttl entry then Dict.delete k m else m)
      (if is_stale now ttl entry
        then ws ++ Warning.unanswered entry ((now - entry.stored_at) / 1000000) ∷ []
        else ws)
      j,
  lookup-delete k j m,
)

stale_at-Fresh :
    (now ttl : ℕ) (j : Text) (m : Dict QueryEntry) → Fresh j m → stale_at now ttl j m ≡ false
unfolding stale_at
stale_at-Fresh now ttl j [] f = refl
stale_at-Fresh now ttl j ((k, entry) ∷ m) f = ground (arith, stale_at-Fresh now ttl j m f.1)

keep_fresh-lookup :
    (now ttl : ℕ) (j : Text) (m : Dict QueryEntry)
    → UniqueKeys m
    → (if stale_at now ttl j m then none else Dict.lookup j m)
      ≡ keep_fresh now ttl (Dict.lookup j m)
unfolding stale_at Dict.lookup
keep_fresh-lookup now ttl j [] u = refl
keep_fresh-lookup now ttl j ((k, entry) ∷ m) u = ground (
  arith,
  text_eq_iff k j,
  keep_fresh-lookup now ttl j m u.1,
  stale_at-Fresh now ttl k m u.0,
  stale_at-Fresh now ttl j m,
)

-- After `evict` the map holds, at each key, what it held unless that was stale.
pub lookup-evict :
    (now : ℕ) (qc : QueryCorrelator) (j : Text)
    → UniqueKeys qc.entries
    → Dict.lookup j (evict now qc).0.entries ≡ keep_fresh now qc.ttl (Dict.lookup j qc.entries)
unfolding evict
lookup-evict now qc j u =
    lookup-evict_loop now qc.ttl qc.entries qc.entries [] j
    ∙ keep_fresh-lookup now qc.ttl j qc.entries u

UniqueKeys-evict_loop :
    (now ttl : ℕ) (l : List (Text × QueryEntry)) (m : Dict QueryEntry) (ws : List Warning)
    → UniqueKeys m
    → UniqueKeys (evict_loop now ttl l m ws).0
unfolding evict_loop
UniqueKeys-evict_loop now ttl [] m ws u = u
UniqueKeys-evict_loop now ttl ((k, entry) ∷ rest) m ws u =
    UniqueKeys-evict_loop now ttl rest _ _
      (Dict.UniqueKeys-if_delete (is_stale now ttl entry) k m u)

pub UniqueKeys-evict :
    (now : ℕ) (qc : QueryCorrelator) → UniqueKeys qc.entries → UniqueKeys (evict now qc).0.entries
unfolding evict
UniqueKeys-evict now qc u = UniqueKeys-evict_loop now qc.ttl qc.entries qc.entries [] u
