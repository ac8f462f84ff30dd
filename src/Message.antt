-- ===== src/Message.antt =====
-- src/message.rs and src/net/protocol.rs: the message envelope and the operations of the wire
-- protocol. JSON values and floating-point numbers are opaque here; a `Uuid` is a number below 2^128
-- and a random one is an argument.
use xfiles.Prelude.{ℕ, Bool, Option, none, some, List, [], Text, codes, text_eq, Map}
use xfiles.Prelude.Maps.{insert}
use xfiles.Prelude.Time.{Nanos}

-- The types of other packages that messages carry.
pub record Opaque : Type 1 where
  pub Value : Type 0
  pub F64 : Type 0
  pub F32 : Type 0

abbrev pub Uuid : Type 0
Uuid = ℕ

pub record QuantumMetadata (x : Opaque) : Type 0 where
  pub amplitudes : Map Text x.F64
  pub collapsed_to : Option Text
  pub entangled : Bool
  pub entanglement_id : Option Uuid

pub record Message (x : Opaque) : Type 0 where
  pub id : Uuid
  pub parent_id : Option Uuid
  pub conversation_id : Uuid
  pub timestamp : Nanos
  pub sender : Text
  pub sender_ns : Text
  pub path : Text
  pub msg_type : Text
  pub payload : x.Value  -- `data`
  pub headers : Map Text Text
  pub quantum : Option (QuantumMetadata x)

pub data DispatchStatus : Type 0 where
  routed queued dropped error : DispatchStatus

pub record MessageResponse : Type 0 where
  pub message_id : Uuid
  pub status : DispatchStatus
  pub routed_to : List Text
  pub explanation : Option Text
  pub latency_ms : ℕ

pub record Capability (x : Opaque) : Type 0 where
  pub name : Text
  pub version : Text
  pub paths : List Text
  pub metadata : Map Text x.Value

pub record CapabilityManifest (x : Opaque) : Type 0 where
  pub agent_id : Text
  pub hostname : Text
  pub capabilities : List (Capability x)
  pub preferred_namespace : Option Text

pub record FeedbackEvent (x : Opaque) : Type 0 where
  pub message_id : Uuid
  pub endpoint_id : Text
  pub success : Bool
  pub latency_ms : ℕ
  pub quality_score : Option x.F32
  pub error_kind : Option Text
  pub metadata : Option x.Value

pub data ProtocolOp (x : Opaque) : Type 0 where
  hello : CapabilityManifest x → ProtocolOp x
  heartbeat : ProtocolOp x
  message : Message x → ProtocolOp x
  response : MessageResponse → ProtocolOp x
  feedback : FeedbackEvent x → ProtocolOp x
  fs_read : Text → ProtocolOp x
  fs_write : Text → List ℕ → ProtocolOp x
  fs_result : Text → Option (List ℕ) → Option Text → ProtocolOp x
  ack : Uuid → ProtocolOp x
  nak : Uuid → Option Text → ProtocolOp x
  error : Text → Text → ProtocolOp x

-- The literals of the program.
abbrev pub net_unknown : Text
net_unknown = codes "/net/unknown"

module _ (x : Opaque) where
  -- `Message::new`, with the two random ids, the time and the JSON null.
  unfoldable pub new : Uuid → Uuid → Nanos → x.Value → Text → Text → Text → Message x
  new id conversation_id now null sender path msg_type = record {
    id = id;
    parent_id = none;
    conversation_id = conversation_id;
    timestamp = now;
    sender = sender;
    sender_ns = net_unknown;
    path = path;
    msg_type = msg_type;
    payload = null;
    headers = [];
    quantum = none;
  }

module _ {x : Opaque} where
  unfoldable pub with_conversation : Message x → Uuid → Message x
  with_conversation m cid = record m { conversation_id = cid }

  unfoldable pub with_parent : Message x → Uuid → Message x
  with_parent m pid = record m { parent_id = some pid }

  unfoldable pub with_header : Message x → Text → Text → Message x
  with_header m key value = record m { headers = insert m.headers key value }

  unfoldable pub with_quantum : Message x → QuantumMetadata x → Message x
  with_quantum m q = record m { quantum = some q }
