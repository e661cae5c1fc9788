-- ===== src/Domain/Ports.antt =====
-- internal/domain/ports.go: the interfaces between the use case and the adapters.
--
-- The storages act on a world `W`, which stands for their queues, connections and files together,
-- and `E` is the type of their errors. A GeoIP resolver may panic: it is called through a pointer.
use dns_flow.Prelude.{Text, Option, none, some, List, [], ◌∷◌, ◌++◌, ◌⊎◌}
use dns_flow.Prelude.Outcome.{Outcome}
use dns_flow.Domain.{DnsRawEvent, GeoipInfo}

pub record Storage (W E : Type 0) : Type 0 where
  pub name : Text
  pub write : DnsRawEvent → W → W × Option E
  pub migrate : W → W × Option E
  pub close : W → W × Option E

pub record DnstapReceiver (W E : Type 0) : Type 0 where
  pub start : W → W × Option E
  pub stop : W → W × Option E

pub record EventProducer (W E : Type 0) : Type 0 where
  pub produce : DnsRawEvent → W → W × Option E
  pub close : W → W × Option E

pub record Pipeline (W E : Type 0) : Type 0 where
  pub process : DnsRawEvent → W → W × Option E
  pub run : W → W × Option E
  pub shutdown : W → W × Option E

-- `Lookup` gives an error or the info; `LookupIP` gives country, city and ASN.
pub record GeoipResolver (E : Type 0) : Type 0 where
  pub lookup : Text → Outcome (E ⊎ GeoipInfo)
  pub lookup_ip : Text → Outcome (Text × Text × Text)

abbrev failure : {E : Type 0} → Text → Option E → List (Text × E)
failure name none = []
failure name (some e) = (name, e) ∷ []

module _ {W E : Type 0} where
  -- The loop that hands an event to every storage; it returns the failures that are logged.
  unfoldable pub write_storages : List (Storage W E) → DnsRawEvent → W → W × List (Text × E)
  write_storages [] event w = (w, [])
  write_storages (s ∷ ss) event w =
      let (w', err) = s.write event w in
      let (w'', errs) = write_storages ss event w' in (w'', failure s.name err ++ errs)

  -- The loop of `Shutdown` that closes every storage.
  unfoldable pub close_storages : List (Storage W E) → W → W × List (Text × E)
  close_storages [] w = (w, [])
  close_storages (s ∷ ss) w =
      let (w', err) = s.close w in
      let (w'', errs) = close_storages ss w' in (w'', failure s.name err ++ errs)

  -- The loop of `initStorages` that sets every storage up.
  unfoldable pub migrate_storages : List (Storage W E) → W → W × List (Text × E)
  migrate_storages [] w = (w, [])
  migrate_storages (s ∷ ss) w =
      let (w', err) = s.migrate w in
      let (w'', errs) = migrate_storages ss w' in (w'', failure s.name err ++ errs)
