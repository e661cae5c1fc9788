-- ===== src/Influx/V2/Posted.antt =====
-- internal/adapter/outbound/influxdb_v2/writer.go: the request of `Write`.
use dns_flow.Prelude.{◌≡◌, Text, Bool, [], ◌∷◌, Option, none, some, if◌then◌else◌}
use dns_flow.Influx.Line
use dns_flow.Influx.V2.{
  Config, Request, Response, Sent, RequestError, bad_url, no_answer, line, write_request,
}

module _ (query_escape : Text → Text) (valid_url : Text → Bool)
    (respond : Request → Option Response) (cfg : Config) where
  abbrev pub failure : Option Response → Option RequestError
  failure none = some no_answer
  failure (some answer) = none

  -- What `Write` of a line comes to: one request with the line, and an error where it has no answer;
  -- or none, where its URL is refused.
  abbrev pub Posted : Text → Sent → Type 0
  Posted text s =
      let request = write_request query_escape cfg text in
      (request.body ≡ line text)
      × (s ≡ (
          if valid_url request.url
          then record { requests = request ∷ []; error = failure (respond request) }
          else record { requests = []; error = some bad_url }))
