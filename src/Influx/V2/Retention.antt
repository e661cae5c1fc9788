-- ===== src/Influx/V2/Retention.antt =====
-- internal/adapter/outbound/influxdb_v2/writer.go: the requests of `applyBucketRetention`.
use dns_flow.Prelude.{
  ◌≡◌, ◌≢◌, ◌<◌, refl, Text, Bool, Bool-cases, List, [], ◌∷◌, Option, Option-cases, none, some, leb,
  leb_false→lt, ◌⊎◌, inl, inr, All, arith,
}
use dns_flow.Prelude.Int.{ℤ}
use dns_flow.Influx.V2.{
  Config, Request, Response, Sent, find_bucket, update_bucket, patch_bucket, patch_first,
  read_buckets, read_search, apply_bucket_retention, migrate, no_body, retention_rules,
  retention_rules_of,
}

module _ (query_escape : Text → Text) (unmarshal : Text → Option (List Text))
    (valid_url : Text → Bool) (respond : Request → Option Response) (cfg : Config) where
  -- The server names `bucket_id` as the first bucket when it is asked.
  abbrev pub Finds : Text → Type 0
  Finds bucket_id =
      (answer : Response) × (body : Text) × (more : List Text) × (respond
          (find_bucket query_escape cfg)
        ≡ some answer)
      × (answer.body ≡ some body)
      × (unmarshal body ≡ some (bucket_id ∷ more))

  -- The rules of the bucket are set: it is found, and the update is answered with success.
  abbrev pub Applied : Sent → Type 0
  Applied s =
      (bucket_id : Text) × Finds bucket_id
      × (s.requests ≡ find_bucket query_escape cfg ∷ update_bucket cfg bucket_id ∷ [])
      × (answer : Response) × (respond (update_bucket cfg bucket_id) ≡ some answer)
      × (answer.status < 300)

  -- The error ends it: no request, the search alone, or the search and a refused update.
  abbrev pub Failed : Sent → Type 0
  Failed s =
      (s.requests ≡ [])
      ⊎ (s.requests ≡ find_bucket query_escape cfg ∷ [])
      ⊎ ((bucket_id : Text) × Finds bucket_id
          × (s.requests ≡ find_bucket query_escape cfg ∷ update_bucket cfg bucket_id ∷ []))

  abbrev pub Outcome : Sent → Type 0
  Outcome s = ((s.error ≡ none) × Applied s) ⊎ ((s.error ≢ none) × Failed s)

  patch_bucket-Outcome :
      (bucket_id : Text)
      → Finds bucket_id
      → Outcome (patch_bucket query_escape unmarshal valid_url respond cfg bucket_id)
  unfolding patch_bucket
  patch_bucket-Outcome id found = elim (Bool-cases (valid_url (update_bucket cfg id).url)) [
    | inl fine ↦ elim (Option-cases (respond (update_bucket cfg id))) [
      | inl silent ↦ rw (fine, silent) (inr (ground arith, inr (inr (id, found, refl))))
      | inr (answer, answered) ↦ elim (Bool-cases (leb 300 answer.status)) [
        | inl bad ↦ rw (fine, answered, bad) (inr (ground arith, inr (inr (id, found, refl))))
        | inr good ↦
            rw (fine, answered, good)
              (inl (refl, (id, found, refl, answer, answered, leb_false→lt _ _ good)))
      ]
    ]
    | inr refused ↦ rw refused (inr (ground arith, inr (inl refl)))
  ]

  read_buckets-Outcome :
      (answer : Response) (body : Option Text)
      → respond (find_bucket query_escape cfg) ≡ some answer
      → answer.body ≡ body
      → Outcome (read_buckets query_escape unmarshal valid_url respond cfg body)
  unfolding read_buckets patch_first
  read_buckets-Outcome answer none answered same = inr (ground arith, inr (inl refl))
  read_buckets-Outcome answer (some body) answered same = elim (Option-cases (unmarshal body)) [
    | inl bad ↦ rw (bad, read_buckets) (inr (ground arith, inr (inl refl)))
    | inr ([], listed) ↦ rw (listed, read_buckets) (inr (ground arith, inr (inl refl)))
    | inr (id ∷ more, listed) ↦
        rw (listed, read_buckets)
          (patch_bucket-Outcome id (answer, body, more, answered, same, listed))
  ]

  read_search-Outcome :
      (r : Option Response)
      → respond (find_bucket query_escape cfg) ≡ r
      → Outcome (read_search query_escape unmarshal valid_url respond cfg r)
  unfolding read_search
  read_search-Outcome none h = inr (ground arith, inr (inl refl))
  read_search-Outcome (some answer) h = read_buckets-Outcome answer answer.body h refl

  -- `applyBucketRetention` returns nil only where the server names a bucket in its answer to the
  -- search, and the update that sets the retention rules of the first such bucket is answered with a
  -- status below 300. Else it has sent nothing, or the search alone, or the search and an update of
  -- the bucket that was found.
  pub apply_bucket_retention-Outcome :
      Outcome (apply_bucket_retention query_escape unmarshal valid_url respond cfg)
  unfolding apply_bucket_retention
  apply_bucket_retention-Outcome =
      elim (Bool-cases (valid_url (find_bucket query_escape cfg).url)) [
        | inl fine ↦ rw fine (read_search-Outcome (respond (find_bucket query_escape cfg)) refl)
        | inr refused ↦ rw refused (inr (ground arith, inl refl))
      ]

  abbrev pub Carries : Option ℤ → Request → Type 0
  Carries rules r = (r.body ≡ no_body) ⊎ (r.body ≡ retention_rules rules)

  find_bucket-Carries : (rules : Option ℤ) → Carries rules (find_bucket query_escape cfg)
  unfolding find_bucket
  find_bucket-Carries rules = inl refl

  update_bucket-Carries :
      (bucket_id : Text) → Carries (retention_rules_of cfg) (update_bucket cfg bucket_id)
  unfolding update_bucket
  update_bucket-Carries bucket_id = inr refl

  Failed-Carries : (s : Sent) → Failed s → All (Carries (retention_rules_of cfg)) s.requests
  Failed-Carries s (inl h) = rw h tt
  Failed-Carries s (inr (inl h)) = rw h (find_bucket-Carries _, tt)
  Failed-Carries s (inr (inr (id, found, h))) =
      rw h (find_bucket-Carries _, (update_bucket-Carries id, tt))

  Outcome-Carries : (s : Sent) → Outcome s → All (Carries (retention_rules_of cfg)) s.requests
  Outcome-Carries s (inl (done, (id, found, h, answer, answered, ok))) =
      rw h (find_bucket-Carries _, (update_bucket-Carries id, tt))
  Outcome-Carries s (inr (e, failed)) = Failed-Carries s failed

  -- `Migrate` returns nil, and each request that it sends has no body or sets the configured rules.
  pub migrate-Carries :
      let s = migrate query_escape unmarshal valid_url respond cfg in
      (s.error ≡ none) × All (Carries (retention_rules_of cfg)) s.requests
  unfolding migrate
  migrate-Carries = (refl, Outcome-Carries _ apply_bucket_retention-Outcome)
