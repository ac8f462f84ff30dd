-- ===== src/Agent.antt =====
-- src/agent.rs: the agents that are connected, by id. The clock is the argument `now`; `Sender` is the
-- channel to an agent.
pub mod Lookup
use xfiles.Prelude.{
  ℕ, Bool, true, false, Option, none, some, List, [], ◌∷◌, map, length, is_empty, filter, Text,
  text_eq, Map,
}
use xfiles.Prelude.Maps.{insert, remove, modify, keys, get as get_entry}
use xfiles.Prelude.Ints.{ℤ, ltb_ℤ}
use xfiles.Prelude.Time.{Nanos, num_seconds}
use xfiles.Message.{Opaque, Uuid, CapabilityManifest}

pub record Agent (x : Opaque) (Sender : Type 0) : Type 0 where
  pub id : Text
  pub uuid : Uuid
  pub hostname : Text
  pub namespace : Text
  pub manifest : CapabilityManifest x
  pub connected_at : Nanos
  pub last_heartbeat : Nanos
  pub tx : Option Sender

pub record AgentRegistry (x : Opaque) (Sender : Type 0) : Type 0 where
  pub agents : Map Text (Agent x Sender)

module _ {x : Opaque} {Sender : Type 0} where
  unfoldable pub new : AgentRegistry x Sender
  new = record { agents = [] }

  unfoldable pub register : AgentRegistry x Sender → Agent x Sender → AgentRegistry x Sender
  register r agent = record r { agents = insert r.agents agent.id agent }

  unfoldable pub get : AgentRegistry x Sender → Text → Option (Agent x Sender)
  get r agent_id = get_entry r.agents agent_id

  unfoldable pub unregister :
      AgentRegistry x Sender → Text → AgentRegistry x Sender × Option (Agent x Sender)
  unfolding get
  unregister r agent_id = (record r { agents = remove r.agents agent_id }, get r agent_id)

  unfoldable pub heartbeat : AgentRegistry x Sender → Nanos → Text → AgentRegistry x Sender
  heartbeat r now agent_id = record r {
    agents = modify r.agents agent_id (λ a. record a { last_heartbeat = now });
  }

  unfoldable pub list : AgentRegistry x Sender → List (Agent x Sender)
  list r = map (λ e. e.1) r.agents

  abbrev pub len : AgentRegistry x Sender → ℕ
  len r = length r.agents

  -- `is_empty` of the registry.
  abbrev pub has_none : AgentRegistry x Sender → Bool
  has_none r = is_empty r.agents

  unfoldable pub is_stale : Nanos → ℤ → Agent x Sender → Bool
  is_stale now threshold_secs a = ltb_ℤ threshold_secs (num_seconds now a.last_heartbeat)

  unfoldable pub stale_agents : AgentRegistry x Sender → Nanos → ℤ → List Text
  unfolding is_stale
  stale_agents r now threshold_secs = keys (filter (λ e. is_stale now threshold_secs e.1) r.agents)
