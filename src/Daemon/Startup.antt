-- ===== src/Daemon/Startup.antt =====
-- src/daemon.rs: the state that `run` builds before it serves. The random ids of the endpoints and the
-- answers of the tool servers are arguments.
use xfiles.Prelude.{
  ℕ, suc, ◌⊎◌, inl, inr, Bool, Option, none, some, List, [], ◌∷◌, if◌then◌else◌, Text, text_eq, Map,
}
use xfiles.Prelude.Maps.{insert}
use xfiles.Prelude.Time.{Nanos}
use xfiles.Message.{Opaque, ProtocolOp}
use xfiles.Channel.{Channels}
use xfiles.Floats.{Floats, Random}
use xfiles.Agent.{new as new_agents}
use xfiles.Circuit.{CircuitBreaker, new as new_breaker}
use xfiles.Plumber.{Patterns, load_from_config, new as new_plumber}
use xfiles.Quantum.Router.{new as new_quantum}
use xfiles.Queue.{new as new_queue}
use xfiles.Ai.Endpoints.{AiEndpoint, ConfigEndpoint, from_config}
use xfiles.Mcp.{Json, McpRegistry, McpManifest, register, discover_and_index, new as new_mcp}
use xfiles.Vfs.Vnode.{Utf8}
use xfiles.Vfs.Registry.{new as new_registry}
use xfiles.Config.{Config, CircuitBreakerConfig}
use xfiles.Daemon.{AppState}

module _ {x : Opaque} where
  -- The endpoints of the configuration, each with the id that is made for it; those whose type does not
  -- parse are left out.
  unfoldable pub add_endpoints :
      Nanos → List (ConfigEndpoint x × Text) → Map Text (AiEndpoint x) → Map Text (AiEndpoint x)
  add_endpoints now [] endpoints = endpoints
  add_endpoints now ((cfg, uuid) ∷ cfgs) endpoints = elim (from_config cfg uuid now) [
    | inl error ↦ add_endpoints now cfgs endpoints
    | inr ep ↦ add_endpoints now cfgs (insert endpoints ep.id ep)
  ]

  unfoldable pub register_all : McpRegistry x → List (Text × AiEndpoint x) → McpRegistry x
  register_all r [] = r
  register_all r ((id, ep) ∷ endpoints) = register_all (register r ep) endpoints

  -- `uuids` gives the ids in their order, and `fetch` the tools of the servers that answer in time.
  abbrev pub with_uuids : List (ConfigEndpoint x) → (ℕ → Text) → ℕ → List (ConfigEndpoint x × Text)
  with_uuids [] uuid n = []
  with_uuids (cfg ∷ cfgs) uuid n = (cfg, uuid n) ∷ with_uuids cfgs uuid (suc n)

abbrev pub breaker_of : CircuitBreakerConfig → Option CircuitBreaker
breaker_of c =
    if c.enabled
    then some (new_breaker c.failure_threshold c.recovery_timeout_secs c.half_open_max_calls)
    else none

module _ {x : Opaque} (re : Patterns x) (fl : Floats) (rand : Random fl)
    (ch : Channels (ProtocolOp x)) (u : Utf8) (json : Json x) where
  -- The hub starts with no agents and the channels as they are; a rule whose pattern does not compile
  -- ends the program. A server of tools that the time limit cuts off counts as one that fails.
  unfoldable pub startup :
      {Addr : Type 0}
      → Config x fl Addr
      → (Text → Bool)
      → Nanos
      → (ℕ → Text)
      → (Text → Text ⊎ McpManifest x)
      → ch.Net
      → Option (AppState re fl rand ch u json)
  unfolding add_endpoints register_all
  startup cfg locks now uuid fetch net =
      let (plumber, loaded) = load_from_config re (new_plumber re) cfg.plumber in
      let endpoints = add_endpoints now (with_uuids cfg.ai uuid 0) [] in
      let s : AppState re fl rand ch u json = record {
        hub = record {
          agents = new_agents;
          vfs = new_registry locks;
          plumber = plumber;
          quantum = if cfg.quantum.enabled then some (new_quantum fl cfg.quantum) else none;
          queue = new_queue;
          net = net;
        };
        circuit = breaker_of cfg.circuit;
        mcp = discover_and_index fetch (register_all new_mcp endpoints);
        endpoints = endpoints;
        quantum_config = cfg.quantum;
        messages = [];
        feedback = [];
      } in
      if loaded then some s else none
