-- ===== src/Influx/V1/Retention.antt =====
-- internal/adapter/outbound/influxdb/writer.go: the requests of `Migrate` without retention.
use dns_flow.Prelude.{
  ◌≡◌, refl, Text, Bool, Bool-cases, true, false, List, [], ◌∷◌, ◌++◌, Option, Option-cases, none,
  some, ◌⊎◌, inl, inr, All, All-append,
}
use dns_flow.Prelude.Int.{pos, ltb_ℤ}
use dns_flow.Prelude.Outcome.{returned}
use dns_flow.Influx.V1.{
  after_exists, Config, Request, Response, Sent, show_databases, create_database, db_exists,
  create_missing, migrate,
}

module _ (base64 : Text → Text) (query_escape : Text → Text) (valid_url : Text → Bool)
    (respond : Request → Option Response) (cfg : Config) where
  -- The request is the question for the databases or the creation of the database.
  abbrev pub IsSetup : Request → Type 0
  IsSetup r =
      (r ≡ show_databases base64 query_escape valid_url respond cfg)
      ⊎ (r ≡ create_database base64 query_escape valid_url respond cfg)

  with_creation :
      (sent : List Request)
      → All IsSetup sent
      → All IsSetup (sent ++ create_database base64 query_escape valid_url respond cfg ∷ [])
  with_creation sent h = All-append IsSetup sent _ h (inr refl, tt)

  created : List Request → Sent
  created sent = record {
    requests = sent ++ create_database base64 query_escape valid_url respond cfg ∷ [];
    error = false;
  }

  create_missing-IsSetup :
      (sent : List Request)
      → ltb_ℤ (pos 0) cfg.retention_days ≡ false
      → All IsSetup sent
      → (s : Sent) × (create_missing base64 query_escape valid_url respond cfg sent ≡ returned s)
        × All IsSetup s.requests
  unfolding create_missing created
  create_missing-IsSetup sent off h =
      let create = create_database base64 query_escape valid_url respond cfg in
      elim (Bool-cases (valid_url create.url)) [
        | inl fine ↦ elim (Option-cases (respond create)) [
          | inl silent ↦ (created sent, rw (fine, silent) refl, with_creation sent h)
          | inr (answer, answered) ↦
              (created sent, rw (fine, answered, off) refl, with_creation sent h)
        ]
        | inr refused ↦ (record { requests = sent; error = true }, rw refused refl, h)
      ]

  after_exists-IsSetup :
      (found : Option Bool) (sent : List Request)
      → ltb_ℤ (pos 0) cfg.retention_days ≡ false
      → All IsSetup sent
      → (s : Sent) × (after_exists base64 query_escape valid_url respond cfg found sent
          ≡ returned s)
        × All IsSetup s.requests
  unfolding after_exists
  after_exists-IsSetup none sent off h = create_missing-IsSetup sent off h
  after_exists-IsSetup (some true) sent off h = (record { requests = sent; error = false }, refl, h)
  after_exists-IsSetup (some false) sent off h = create_missing-IsSetup sent off h

  db_exists-IsSetup : All IsSetup (db_exists base64 query_escape valid_url respond cfg).1
  unfolding db_exists
  db_exists-IsSetup =
      elim (Bool-cases (valid_url (show_databases base64 query_escape valid_url respond cfg).url)) [
        | inl fine ↦ rw (fine, db_exists) (inl refl, tt)
        | inr refused ↦ rw (refused, db_exists) tt
      ]

  -- With no retention asked for, `Migrate` returns, whatever the server answers, and sends nothing
  -- but the question for the databases and the creation of the database.
  pub migrate-IsSetup :
      ltb_ℤ (pos 0) cfg.retention_days ≡ false
      → (s : Sent) × (migrate base64 query_escape valid_url respond cfg ≡ returned s)
        × All IsSetup s.requests
  unfolding migrate
  migrate-IsSetup off =
      after_exists-IsSetup (db_exists base64 query_escape valid_url respond cfg).0
        (db_exists base64 query_escape valid_url respond cfg).1 off db_exists-IsSetup
