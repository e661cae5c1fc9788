-- ===== src/Influx/V2.antt =====
-- internal/adapter/outbound/influxdb_v2/writer.go: the requests of `Migrate` and of `Write`.
--
-- Parameters: `url.QueryEscape`, whether `http.NewRequest` accepts a URL, the answer of the client to
-- a request, `none` for an error, `json.Unmarshal` of the list of buckets, as the identifiers, `%f`
-- of the latency and `%q`. The text of `toLineProtocol` and of its helpers is that of the v1 writer,
-- word for word.
pub mod Retention
pub mod Posted
use dns_flow.Prelude.{
  ℕ, ◌*◌, Text, codes, text_eq, Bool, true, false, List, [], ◌∷◌, ◌++◌, Option, none, some, leb,
  if◌then◌else◌,
}
use dns_flow.Prelude.Int.{ℤ, pos, ltb_ℤ, pos_part, wrap_i64}
use dns_flow.Domain.{Float64, DnsRawEvent}
use dns_flow.Prelude.Outcome.{Outcome, returned, panicked}
use dns_flow.Influx.Line

pub record Config : Type 0 where
  pub url : Text
  pub org : Text
  pub bucket : Text
  pub token : Text
  pub precision : Text
  pub measurement : Text
  pub retention_days : ℤ

-- What a request carries. The retention rules are JSON: `none` is null, and `some n` the list of one
-- rule of type `expire` with `everySeconds` n.
pub data Body : Type 0 where
  no_body : Body
  line : Text → Body
  retention_rules : Option ℤ → Body

pub record Request : Type 0 where
  pub method : Text
  pub url : Text
  pub body : Body
  pub authorization : Text
  pub content_type : Text

-- A body of `none` cannot be read.
pub record Response : Type 0 where
  pub status : ℕ
  pub body : Option Text

pub data RequestError : Type 0 where
  bad_url no_answer unread_body bad_json bucket_not_found patch_failed : RequestError

-- The requests that were sent, and the error that is returned.
pub record Sent : Type 0 where
  pub requests : List Request
  pub error : Option RequestError

unfoldable pub authorization : Config → Text
authorization cfg = codes "Token " ++ cfg.token

unfoldable pub retention_rules_of : Config → Option ℤ
retention_rules_of cfg =
    if ltb_ℤ (pos 0) cfg.retention_days
    then some (wrap_i64 (pos (pos_part cfg.retention_days * 86400)))
    else none

unfoldable pub update_bucket : Config → Text → Request
unfolding authorization retention_rules_of
update_bucket cfg bucket_id = record {
  method = codes "PATCH";
  url = cfg.url ++ codes "/api/v2/buckets/" ++ bucket_id;
  body = retention_rules (retention_rules_of cfg);
  authorization = authorization cfg;
  content_type = codes "application/json";
}

module _ (query_escape : Text → Text) (cfg : Config) where
  unfoldable pub find_bucket : Request
  unfolding authorization
  find_bucket = record {
    method = codes "GET";
    url =
        cfg.url
        ++ codes "/api/v2/buckets?org="
        ++ query_escape cfg.org
        ++ codes "&name="
        ++ query_escape cfg.bucket;
    body = no_body;
    authorization = authorization cfg;
    content_type = [];
  }

  unfoldable pub write_request : Text → Request
  unfolding authorization
  write_request text =
      let precision = if text_eq cfg.precision [] then codes "ns" else cfg.precision in
      record {
        method = codes "POST";
        url =
            cfg.url
            ++ codes "/api/v2/write?org="
            ++ query_escape cfg.org
            ++ codes "&bucket="
            ++ query_escape cfg.bucket
            ++ codes "&precision="
            ++ query_escape precision;
        body = line text;
        authorization = authorization cfg;
        content_type = codes "text/plain; charset=utf-8";
      }

unfoldable pub measurement : Config → Text
measurement cfg = Line.measurement cfg.measurement

module _ (show_seconds : Float64 → Text) (quote : Text → Text) where
  -- `now` is the time that replaces a timestamp at the epoch.
  unfoldable pub to_line_protocol : Config → ℤ → DnsRawEvent → Text
  to_line_protocol cfg now event =
      Line.to_line_protocol show_seconds quote cfg.measurement now event

module _ (query_escape : Text → Text) (unmarshal : Text → Option (List Text))
    (valid_url : Text → Bool) (respond : Request → Option Response) (cfg : Config) where
  -- The part of `applyBucketRetention` behind the search, for the bucket that was found.
  unfoldable pub patch_bucket : Text → Sent
  patch_bucket bucket_id =
      let find = find_bucket query_escape cfg in
      let update = update_bucket cfg bucket_id in
      if valid_url update.url
      then (elim (respond update) [
        | none ↦ record { requests = find ∷ update ∷ []; error = some no_answer }
        | some answer ↦ record {
          requests = find ∷ update ∷ [];
          error = if leb 300 answer.status then some patch_failed else none;
        }
      ])
      else record { requests = find ∷ []; error = some bad_url }

  unfoldable pub patch_first : List Text → Sent
  unfolding patch_bucket
  patch_first [] = record {
    requests = find_bucket query_escape cfg ∷ [];
    error = some bucket_not_found;
  }
  patch_first (bucket_id ∷ more) = patch_bucket bucket_id

  unfoldable pub read_buckets : Option Text → Sent
  unfolding patch_first
  read_buckets none = record {
    requests = find_bucket query_escape cfg ∷ [];
    error = some unread_body;
  }
  read_buckets (some body) = elim (unmarshal body) [
    | none ↦ record { requests = find_bucket query_escape cfg ∷ []; error = some bad_json }
    | some buckets ↦ patch_first buckets
  ]

  unfoldable pub read_search : Option Response → Sent
  unfolding read_buckets
  read_search none = record { requests = find_bucket query_escape cfg ∷ []; error = some no_answer }
  read_search (some answer) = read_buckets answer.body

  unfoldable pub apply_bucket_retention : Sent
  unfolding read_search
  apply_bucket_retention =
      let find = find_bucket query_escape cfg in
      if valid_url find.url
      then read_search (respond find)
      else record { requests = []; error = some bad_url }

  -- `Migrate`: the error is only logged.
  unfoldable pub migrate : Sent
  migrate = record { requests = apply_bucket_retention.requests; error = none }

module _ (query_escape : Text → Text) (valid_url : Text → Bool)
    (respond : Request → Option Response) (cfg : Config) where
  unfoldable pub write_line : Text → Sent
  write_line [] = record { requests = []; error = none }
  write_line (c ∷ text) =
      let request = write_request query_escape cfg (c ∷ text) in
      if valid_url request.url
      then (elim (respond request) [
        | none ↦ record { requests = request ∷ []; error = some no_answer }
        | some answer ↦ record { requests = request ∷ []; error = none }
      ])
      else record { requests = []; error = some bad_url }

-- `Write`: an answer with a status of 300 or more is only logged.
unfoldable pub write :
    (show_seconds : Float64 → Text) (quote query_escape : Text → Text) (valid_url : Text → Bool)
    (respond : Request → Option Response)
    → Config
    → ℤ
    → DnsRawEvent
    → Sent
unfolding write_line to_line_protocol
write show_seconds quote query_escape valid_url respond cfg now event =
    write_line query_escape valid_url respond cfg
      (to_line_protocol show_seconds quote cfg now event)

-- `Close`, by whether the channel `done` is closed: closing it again panics.
unfoldable pub close : Bool → Outcome Bool
close false = returned true
close true = panicked
