-- ===== src/Events.antt =====
-- events.py: event envelopes with their deterministic identity, and the append-only event store.
pub mod Types
pub mod Envelope
pub mod Store
