-- ===== src/Correlator.antt =====
-- internal/usecase/correlator.go: matching responses to the queries that were seen before them.
--
-- A method returns the new state; the warnings that it logs are values. `StoredAt` and `now` are
-- readings of the monotonic clock in nanoseconds, so the truncated `now - stored_at` passes the
-- ttl exactly when Go's signed difference does. The mutex makes each method one atomic step.
pub mod Key
pub mod Evict
pub mod Spec
pub mod Answer
pub mod Ticks
use dns_flow.Prelude.{
  ℕ, ◌*◌, ◌-◌, ◌/◌, Text, codes, text_eq, show, Bool, true, false, ◌||◌, not, List, [], ◌∷◌, ◌++◌,
  Option, none, some, ltb, if◌then◌else◌,
}
use dns_flow.Prelude.Dict
use dns_flow.Prelude.Dict.{Dict}
use dns_flow.Domain.{DnsRawEvent}

pub record QueryEntry : Type 0 where
  pub qname : Text
  pub qtype : Text
  pub client_ip : Text
  pub dns_id : ℕ
  pub stored_at : ℕ

pub record QueryCorrelator : Type 0 where
  pub entries : Dict QueryEntry
  pub ttl : ℕ

pub data Warning : Type 0 where
  unanswered : (entry : QueryEntry) (age_ms : ℕ) → Warning
  mismatch : (entry : QueryEntry) (response : DnsRawEvent) → Warning

abbrev pub second : ℕ
second = 1000000000

unfoldable pub new_query_correlator : QueryCorrelator
new_query_correlator = record { entries = []; ttl = 30 * second }

-- `fmt.Sprintf("%s:%d", ip, id)`
unfoldable pub key : Text → ℕ → Text
key ip id = ip ++ b':' ∷ show id

unfoldable pub key_of : DnsRawEvent → Text
key_of event = key event.network.query_ip event.dns.id

unfoldable pub entry_of : ℕ → DnsRawEvent → QueryEntry
entry_of now event = record {
  qname = event.dns.qname;
  qtype = event.dns.qtype;
  client_ip = event.network.query_ip;
  dns_id = event.dns.id;
  stored_at = now;
}

unfoldable pub store : ℕ → DnsRawEvent → QueryCorrelator → QueryCorrelator
store now event qc = record qc {
  entries = Dict.insert (key_of event) (entry_of now event) qc.entries;
}

unfoldable pub mismatches : QueryEntry → DnsRawEvent → Bool
mismatches entry event =
    not (text_eq entry.qname event.dns.qname) || not (text_eq entry.qtype event.dns.qtype)

-- The branch of `Lookup` on what the map holds at the key.
unfoldable pub take_entry :
    Option QueryEntry → DnsRawEvent → QueryCorrelator → QueryCorrelator × Bool × List Warning
take_entry none event qc = (qc, false, [])
take_entry (some entry) event qc = (
  record qc { entries = Dict.delete (key_of event) qc.entries },
  true,
  if mismatches entry event then mismatch entry event ∷ [] else [],
)

unfoldable pub lookup : DnsRawEvent → QueryCorrelator → QueryCorrelator × Bool × List Warning
unfolding take_entry
lookup event qc = take_entry (Dict.lookup (key_of event) qc.entries) event qc

unfoldable pub is_stale : ℕ → ℕ → QueryEntry → Bool
is_stale now ttl entry = ltb ttl (now - entry.stored_at)

-- The loop of `evict`, over the entries that are left; it deletes from the map as it goes.
unfoldable pub evict_loop :
    ℕ
    → ℕ
    → List (Text × QueryEntry)
    → Dict QueryEntry
    → List Warning
    → Dict QueryEntry × List Warning
evict_loop now ttl [] m warnings = (m, warnings)
evict_loop now ttl ((k, entry) ∷ rest) m warnings =
    let stale = is_stale now ttl entry in
    evict_loop now ttl rest (if stale then Dict.delete k m else m) (
      if stale
      then warnings ++ unanswered entry ((now - entry.stored_at) / 1000000) ∷ []
      else warnings)

unfoldable pub evict : ℕ → QueryCorrelator → QueryCorrelator × List Warning
unfolding evict_loop
evict now qc =
    let (m, warnings) = evict_loop now qc.ttl qc.entries qc.entries [] in
    (record qc { entries = m }, warnings)
