-- ===== src/Daemon/Feedback.antt =====
-- src/daemon.rs: whose conversation a feedback reaches.
use xfiles.Prelude.{◌≡◌, false, if◌then◌else◌, ◌==◌, Text, text_eq, nat_eq}
use xfiles.Prelude.Maps.{get}
use xfiles.Message.{Opaque, Uuid, ProtocolOp, FeedbackEvent}
use xfiles.Channel.{Channels}
use xfiles.Floats.{Floats, Random}
use xfiles.Plumber.{Patterns}
use xfiles.Mcp.{Json}
use xfiles.Vfs.Vnode.{Utf8}
use xfiles.Quantum.Router.{QuantumRouter, reward_of}
use xfiles.Quantum.Router.Learning.{tally_of, more}

module _ {x : Opaque} (re : Patterns x) (fl : Floats) (rand : Random fl)
    (ch : Channels (ProtocolOp x)) (u : Utf8) (json : Json x) where
  -- A router after it has learned from a feedback in the conversation with some id: the endpoint of the
  -- feedback has one choice and one reward more there, no other endpoint has, and the other conversations
  -- are as they were.
  abbrev pub HasLearned : FeedbackEvent x → Uuid → QuantumRouter fl → QuantumRouter fl → Type 0
  HasLearned event id q q' =
      ((ep : Text)
        → tally_of fl q' id ep ≡ (
            if event.endpoint_id == ep
            then more fl (reward_of fl event.success event.latency_ms) (tally_of fl q id ep)
            else tally_of fl q id ep))
      × ((other : Uuid)
          → (id == other) ≡ false
          → get q'.state.conversations other ≡ get q.state.conversations other)
