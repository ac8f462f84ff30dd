-- ===== src/Event.antt =====
-- src/event.rs: the events and their builders. The emitter logs an event and hands it to the store.
use xfiles.Prelude.{◌⊎◌, inl, inr, Option, none, some, [], Text, text_eq, Map}
use xfiles.Prelude.Maps.{insert}
use xfiles.Prelude.Time.{Nanos}
use xfiles.Message.{Opaque, Uuid}

pub data EventSeverity : Type 0 where
  debug info warn error : EventSeverity

pub data EventKind : Type 0 where
  message_routed message_delivered message_failed endpoint_health_changed : EventKind
  circuit_breaker_tripped circuit_breaker_reset agent_connected agent_disconnected : EventKind
  quantum_state_updated mcp_tool_called rate_limit_hit system_startup system_shutdown : EventKind

pub record Event (x : Opaque) : Type 0 where
  pub id : Uuid
  pub timestamp : Nanos
  pub kind : EventKind
  pub severity : EventSeverity
  pub source : Text
  pub text : Text  -- `message`
  pub conversation_id : Option Uuid
  pub endpoint_id : Option Text
  pub agent_id : Option Text
  pub metadata : Map Text x.Value

-- `Event::new`, with the random id and the time.
unfoldable pub new : {x : Opaque} → Uuid → Nanos → EventKind → Text → Text → Event x
new id now kind source text = record {
  id = id;
  timestamp = now;
  kind = kind;
  severity = info;
  source = source;
  text = text;
  conversation_id = none;
  endpoint_id = none;
  agent_id = none;
  metadata = [];
}

module _ {x : Opaque} where
  unfoldable pub with_severity : Event x → EventSeverity → Event x
  with_severity e severity = record e { severity = severity }

  unfoldable pub with_conversation : Event x → Uuid → Event x
  with_conversation e id = record e { conversation_id = some id }

  unfoldable pub with_endpoint : Event x → Text → Event x
  with_endpoint e id = record e { endpoint_id = some id }

  unfoldable pub with_agent : Event x → Text → Event x
  with_agent e id = record e { agent_id = some id }

  -- The value as `to_value` gives it, or its error.
  unfoldable pub with_metadata : Event x → Text → Text ⊎ x.Value → Event x
  with_metadata e key (inl err) = e
  with_metadata e key (inr v) = record e { metadata = insert e.metadata key v }
