-- ===== src/Dnstap/Server/Events.antt =====
-- internal/adapter/inbound/dnstap/server.go: the events of a connection.
use dns_flow.Prelude.{
  ◌≡◌, refl, ◌∙◌, Text, true, false, List, [], ◌∷◌, ◌++◌, Option-cases, none, some, ◌⊎◌, inl, inr,
}
use dns_flow.Prelude.Int.{ℤ}
use dns_flow.Domain.{DnsRawEvent}
use dns_flow.Dnstap.Message.{Dnstap}
use dns_flow.Dnstap.Decode.{Libraries, decode_to_event}
use dns_flow.Dnstap.Server.{
  Round, stopped, undecoded, decoded, Conn, process_decoded, serve, handle_conn,
}

-- Messages that were decoded, each at its time.
abbrev pub rounds_of : List (Dnstap × ℤ) → List Round
rounds_of [] = []
rounds_of ((tap, now) ∷ taps) = decoded tap now ∷ rounds_of taps

module _ {W : Type 0} (lib : Libraries) (process : DnsRawEvent → W → W) (remote : Text) where
  -- The events of the messages: those that hold a message of DNS.
  unfoldable pub events_of : List (Dnstap × ℤ) → List DnsRawEvent
  events_of [] = []
  events_of ((tap, now) ∷ taps) = elim (decode_to_event lib tap remote now) [
    | none ↦ events_of taps
    | some event ↦ event ∷ events_of taps
  ]

  unfoldable pub process_events : List DnsRawEvent → W → W
  process_events [] w = w
  process_events (event ∷ events) w = process_events events (process event w)

  serve-process_events :
      (taps : List (Dnstap × ℤ)) (last : Round) (after : List Round) (c : Conn W)
      → (last ≡ stopped) ⊎ (last ≡ undecoded)
      → serve lib process remote (rounds_of taps ++ last ∷ after) c
        ≡ record { world = process_events (events_of taps) c.world; is_open = false }
  unfolding serve events_of process_events process_decoded
  serve-process_events [] last after c (inl h) = rw h refl
  serve-process_events [] last after c (inr h) = rw h refl
  serve-process_events ((tap, now) ∷ taps) last after c h =
      serve-process_events taps last after _ h
      ∙ elim (Option-cases (decode_to_event lib tap remote now)) [
        | inl empty ↦ rw (empty, events_of) refl
        | inr (event, full) ↦ rw (full, events_of) refl
      ]

  -- Behind a handshake, a connection hands to `Process`, in order, exactly the events of the messages
  -- that were decoded before the context was done or `Decode` failed, whatever would follow, and then
  -- it is closed. Without a handshake it hands over nothing and is closed.
  pub handle_conn-process_events :
      (taps : List (Dnstap × ℤ)) (last : Round) (after : List Round) (w : W)
      → (last ≡ stopped) ⊎ (last ≡ undecoded)
      → (handle_conn lib process remote true (rounds_of taps ++ last ∷ after) w
          ≡ record { world = process_events (events_of taps) w; is_open = false })
        × (handle_conn lib process remote false (rounds_of taps ++ last ∷ after) w
            ≡ record { world = w; is_open = false })
  unfolding handle_conn
  handle_conn-process_events taps last after w h =
      (serve-process_events taps last after (record { world = w; is_open = true }) h, refl)
