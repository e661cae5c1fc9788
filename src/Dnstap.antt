-- ===== src/Dnstap.antt =====
-- internal/adapter/inbound/dnstap/server.go: the connections, and from a message to an event.
pub mod Extra
pub mod Message
pub mod Rdata
pub mod Times
pub mod Decode
pub mod Server
pub mod Latency
pub mod Sections
pub mod Policy
