-- ===== src/Influx/V1.antt =====
-- internal/adapter/outbound/influxdb/writer.go: the requests of `Migrate` and of `Write`.
--
-- Parameters: base64, `url.QueryEscape`, whether `http.NewRequest` accepts a URL, and the answer of
-- the client to a request, `none` for an error. A body whose reading fails stands as what was read.
pub mod Retention
use dns_flow.Prelude.{
  ℕ, Text, codes, text_eq, starts_with, Bool, true, false, not, ◌&&◌, ◌||◌, List, [], ◌∷◌, ◌++◌,
  Option, none, some, leb, if◌then◌else◌,
}
use dns_flow.Prelude.Int.{ℤ, pos, ltb_ℤ, show_int}
use dns_flow.Prelude.Outcome.{Outcome, returned, panicked, ◌>>=◌}

pub record Config : Type 0 where
  pub url : Text
  pub database : Text
  pub username : Text
  pub password : Text
  pub retention_policy : Text
  pub retention_days : ℤ
  pub measurement : Text

-- An empty `authorization` is a header that is not set.
pub record Request : Type 0 where
  pub method : Text
  pub url : Text
  pub body : Text
  pub authorization : Text

pub record Response : Type 0 where
  pub status : ℕ
  pub body : Text

-- The requests that were sent, and whether an error is returned.
pub record Sent : Type 0 where
  pub requests : List Request
  pub error : Bool

-- `bytes.Contains`
unfoldable pub contains : Text → Text → Bool
unfolding starts_with
contains [] p = starts_with [] p
contains (c ∷ s) p = starts_with (c ∷ s) p || contains s p

module _ (base64 : Text → Text) (query_escape : Text → Text) (valid_url : Text → Bool)
    (respond : Request → Option Response) (cfg : Config) where
  unfoldable pub auth_header : Text
  auth_header =
      if text_eq cfg.username [] && text_eq cfg.password []
      then []
      else codes "Basic " ++ base64 (cfg.username ++ b':' ∷ cfg.password)

  unfoldable pub show_databases : Request
  show_databases = record {
    method = codes "GET";
    url = cfg.url ++ codes "/query?q=SHOW+DATABASES";
    body = [];
    authorization = auth_header;
  }

  unfoldable pub create_database : Request
  create_database = record {
    method = codes "POST";
    url =
        cfg.url ++ codes "/query?q=CREATE+DATABASE+%22" ++ query_escape cfg.database ++ codes "%22";
    body = [];
    authorization = auth_header;
  }

  unfoldable pub policy_request : Text → Request
  policy_request verb =
      let name =
        if text_eq cfg.retention_policy [] then codes "autogen" else cfg.retention_policy in
      record {
        method = codes "POST";
        url =
            cfg.url
            ++ codes "/query?q="
            ++ verb
            ++ codes "+RETENTION+POLICY+%22"
            ++ query_escape name
            ++ codes "%22+ON+%22"
            ++ query_escape cfg.database
            ++ codes "%22+DURATION+"
            ++ query_escape (show_int cfg.retention_days ++ codes "d")
            ++ codes "+REPLICATION+1+DEFAULT";
        body = [];
        authorization = auth_header;
      }

  -- `dbExists`: `none` is an error.
  unfoldable pub db_exists : Option Bool × List Request
  db_exists =
      if valid_url show_databases.url
      then (
        elim (respond show_databases) [
          | none ↦ none
          | some answer ↦ some (contains answer.body cfg.database)
        ],
        show_databases ∷ [],
      )
      else (none, [])

  -- `applyRetentionPolicy`. A URL that is refused for the second request leaves a nil request, and
  -- setting its header or sending it panics.
  unfoldable pub apply_retention_policy : Outcome (List Request)
  apply_retention_policy =
      let create = policy_request (codes "CREATE") in
      let alter = policy_request (codes "ALTER") in
      if valid_url create.url
      then (elim (respond create) [
        | none ↦ returned (create ∷ [])
        | some answer ↦
            if leb 300 answer.status
            then (if valid_url alter.url then returned (create ∷ alter ∷ []) else panicked)
            else returned (create ∷ [])
      ])
      else returned []

  -- The part of `Migrate` that creates the database.
  unfoldable pub create_missing : List Request → Outcome Sent
  create_missing sent =
      if valid_url create_database.url
      then (elim (respond create_database) [
        | none ↦ returned (record { requests = sent ++ create_database ∷ []; error = false })
        | some answer ↦
            if ltb_ℤ (pos 0) cfg.retention_days
            then (do
              applied ← apply_retention_policy
              returned (record { requests = sent ++ create_database ∷ applied; error = false }))
            else returned (record { requests = sent ++ create_database ∷ []; error = false })
      ])
      else returned (record { requests = sent; error = true })

  -- The branch of `Migrate` on the answer of `dbExists`.
  unfoldable pub after_exists : Option Bool → List Request → Outcome Sent
  after_exists none sent = create_missing sent
  after_exists (some true) sent = returned (record { requests = sent; error = false })
  after_exists (some false) sent = create_missing sent

  unfoldable pub migrate : Outcome Sent
  unfolding after_exists
  migrate = after_exists db_exists.0 db_exists.1

  unfoldable pub write_request : Text → Request
  write_request line = record {
    method = codes "POST";
    url =
        cfg.url
        ++ codes "/write?db="
        ++ query_escape cfg.database
        ++ (if not (text_eq cfg.retention_policy [])
            then codes "&rp=" ++ query_escape cfg.retention_policy
            else []);
    body = line;
    authorization = auth_header;
  }

  -- `Write` of the line of an event: an answer with a status of 300 or more is no error.
  unfoldable pub write : Text → Sent
  write [] = record { requests = []; error = false }
  write (c ∷ line) =
      let request = write_request (c ∷ line) in
      if valid_url request.url
      then (elim (respond request) [
        | none ↦ record { requests = request ∷ []; error = true }
        | some answer ↦ record { requests = request ∷ []; error = false }
      ])
      else record { requests = []; error = true }

-- `Close`, by whether the channel `done` is closed: closing it again panics.
unfoldable pub close : Bool → Outcome Bool
close false = returned true
close true = panicked
