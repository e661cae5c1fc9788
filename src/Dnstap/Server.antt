-- ===== src/Dnstap/Server.antt =====
-- internal/adapter/inbound/dnstap/server.go: the listener and its connections.
--
-- Parameters: the libraries of the decoder, `Process` of the pipeline, on a world `W`, and what the
-- calls of net, framestream and dnstap return, in their order.
pub mod Events
use dns_flow.Prelude.{
  suc, ℕ, Text, Bool, true, false, not, List, [], ◌∷◌, Option, none, some, if◌then◌else◌,
}
use dns_flow.Prelude.Int.{ℤ}
use dns_flow.Domain.{DnsRawEvent}
use dns_flow.Dnstap.Message.{Dnstap}
use dns_flow.Dnstap.Decode.{Libraries, decode_to_event}

-- A round of a connection: the context is done, `Decode` fails, or it gives a message; `now` is the
-- time that is read for the event.
pub data Round : Type 0 where
  stopped : Round
  undecoded : Round
  decoded : Dnstap → (now : ℤ) → Round

pub record Conn (W : Type 0) : Type 0 where
  pub world : W
  pub is_open : Bool

module _ {W : Type 0} (process : DnsRawEvent → W → W) where
  unfoldable pub process_decoded : Option DnsRawEvent → W → W
  process_decoded none w = w
  process_decoded (some event) w = process event w

module _ {W : Type 0} (lib : Libraries) (process : DnsRawEvent → W → W) (remote : Text) where
  -- The loop of `handleConn`. The deferred close of the connection follows its end.
  unfoldable pub serve : List Round → Conn W → Conn W
  unfolding process_decoded
  serve [] c = c
  serve (stopped ∷ rounds) c = record c { is_open = false }
  serve (undecoded ∷ rounds) c = record c { is_open = false }
  serve (decoded tap now ∷ rounds) c =
      serve rounds
        (record c { world = process_decoded process (decode_to_event lib tap remote now) c.world })

  unfoldable pub handle_conn : (handshake : Bool) → List Round → W → Conn W
  unfolding serve
  handle_conn handshake rounds w =
      let c : Conn W = record { world = w; is_open = true } in
      if handshake then serve rounds c else record c { is_open = false }

-- What `Accept` gives: a connection, or an error, which ends the loop if the context is done.
pub data Accepted : Type 0 where
  connection : Accepted
  accept_error : (ctx_done : Bool) → Accepted

pub record Acceptor : Type 0 where
  pub connections : ℕ
  pub errors : ℕ
  pub running : Bool

unfoldable pub accept_loop : List Accepted → Acceptor → Acceptor
accept_loop [] a = a
accept_loop (connection ∷ rest) a = accept_loop rest (record a { connections = suc a.connections })
accept_loop (accept_error true ∷ rest) a = record a { running = false }
accept_loop (accept_error false ∷ rest) a = accept_loop rest (record a { errors = suc a.errors })

-- `has_cancel` and `has_listener` say that the fields are not nil.
pub record Server : Type 0 where
  pub has_cancel : Bool
  pub has_listener : Bool
  pub cancelled : Bool

unfoldable pub new_server : Server
new_server = record { has_cancel = false; has_listener = false; cancelled = false }

-- The second component is true for an error.
unfoldable pub start : (listens : Bool) → Server → Server × Bool
start listens s =
    if listens
    then (record { has_cancel = true; has_listener = true; cancelled = false }, false)
    else (record s { has_listener = false }, true)

unfoldable pub stop : (closes : Bool) → Server → Server × Bool
stop closes s =
    let s' : Server = if s.has_cancel then record s { cancelled = true } else s in
    if s.has_listener then (s', not closes) else (s', false)
