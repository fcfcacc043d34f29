-- ===== src/Engine/Payloads.antt =====
-- relay/engine.ts: the readers of JSON payloads. An object that lacks what is required throws.
pub mod Values
pub mod Parse
unfoldable pub use forum_relay.Engine.Payloads.Values.*
unfoldable pub use forum_relay.Engine.Payloads.Parse.*
