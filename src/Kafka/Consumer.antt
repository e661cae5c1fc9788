-- ===== src/Kafka/Consumer.antt =====
-- internal/adapter/inbound/kafka/consumer.go: from the topic to the storages.
--
-- Parameters: `json.Unmarshal`, as `unmarshal`, the messages and errors that `ReadMessage` of
-- kafka-go returns, in their order, and the storages behind their interface.
pub mod Delivery
pub mod Start
use dns_flow.Prelude.{
  ℕ, suc, ◌%◌, ◌==◌, Text, Bool, true, false, List, [], ◌∷◌, ◌++◌, Option, none, some,
  if◌then◌else◌,
}
use dns_flow.Domain.{DnsRawEvent}
use dns_flow.Domain.Ports.{Storage, write_storages}

-- What one call of `ReadMessage` gives: a message, or an error, which ends the loop if the context
-- is done by then.
pub data Read : Type 0 where
  message : (value : Text) → Read
  read_error : (ctx_done : Bool) → Read

pub record Loop (W E : Type 0) : Type 0 where
  pub world : W
  pub total : ℕ
  pub running : Bool
  pub read_errors : ℕ
  pub unmarshal_errors : ℕ
  pub write_errors : List (Text × E)
  pub progress_logs : List ℕ

module _ {W E : Type 0} (unmarshal : Text → Option DnsRawEvent)
    (storages : List (Storage W E)) where
  unfoldable pub handle_event : DnsRawEvent → Loop W E → Loop W E
  handle_event event l =
      let written = write_storages storages event l.world in
      let total = suc l.total in
      record l {
        world = written.0;
        total = total;
        write_errors = l.write_errors ++ written.1;
        progress_logs =
            if total % 1000 == 0 then l.progress_logs ++ total ∷ [] else l.progress_logs;
      }

  unfoldable pub handle_message : Text → Loop W E → Loop W E
  unfolding handle_event
  handle_message value l = elim (unmarshal value) [
    | none ↦ record l { unmarshal_errors = suc l.unmarshal_errors }
    | some event ↦ handle_event event l
  ]

  -- `loop`, over what the reads return.
  unfoldable pub loop : List Read → Loop W E → Loop W E
  loop [] l = l
  loop (message value ∷ reads) l = loop reads (handle_message value l)
  loop (read_error true ∷ reads) l = record l { running = false }
  loop (read_error false ∷ reads) l = loop reads (record l { read_errors = suc l.read_errors })
