-- ===== src/Api.antt =====
-- src/api.rs: the handlers of the REST interface that change the state or choose among the handlers. The
-- bodies of the answers are the facts that they hold.
pub mod Agents
pub mod Messages
use xfiles.Prelude.{
  ℕ, ◌⊎◌, inl, inr, Bool, Option, none, some, [], ◌∷◌, ◌++◌, if◌then◌else◌, ◌==◌, Text, text_eq,
  codes, Map,
}
use xfiles.Prelude.Time.{Nanos}
use xfiles.Message.{Opaque, Message, ProtocolOp, MessageResponse, routed}
use xfiles.Channel.{Channels}
use xfiles.Floats.{Floats, Random}
use xfiles.Agent.{unregister}
use xfiles.Plumber.{Patterns}
use xfiles.Mcp.{Json, call_tool_by_name}
use xfiles.Vfs.Vnode.{Utf8}
use xfiles.Vfs.Registry.{unmount_agent_ns, remove_node}
use xfiles.Transport.{Moment, deliver}
use xfiles.Proxy.{
  ChatCompletionRequest, Upstream, Answer, ProxyState, Moment as Arrival, chat_completions_handler,
}
use xfiles.Daemon.{AppState, route_message, singleton?, or_stand_in}

-- What a call of a tool answers; 200, 404 and 502.
pub data ToolReply (x : Opaque) : Type 0 where
  result : x.Value → ToolReply x
  tool_not_found : ToolReply x
  tool_error : Text → ToolReply x

pub record OrchestrateRequest (x : Opaque) : Type 0 where
  pub intent : Text
  pub input : x.Value
  pub context : x.Value

-- 400, or the answer of the handler that the intent names.
pub data OrchestrateReply (x : Opaque) : Type 0 where
  bad_request : Text → OrchestrateReply x
  sent : MessageResponse → OrchestrateReply x
  called : ToolReply x → OrchestrateReply x
  completed : Answer x → OrchestrateReply x

abbrev pub unknown_intent : Text
unknown_intent = codes "unknown intent"

module _ {x : Opaque} (re : Patterns x) (fl : Floats) (rand : Random fl)
    (ch : Channels (ProtocolOp x)) (u : Utf8) (json : Json x) where
  -- `agents().unregister(&id)` and `vfs().unmount_agent_ns(&id)`
  unfoldable pub unregister_agent :
      (Text → Bool) → AppState re fl rand ch u json → Text → AppState re fl rand ch u json
  unregister_agent locks s id = record s {
    hub = record s.hub {
      agents = (unregister s.hub.agents id).0;
      vfs = unmount_agent_ns locks s.hub.vfs id;
    };
  }

  -- The HTTP status is the second part.
  unfoldable pub vfs_delete :
      (Text → Bool) → AppState re fl rand ch u json → Text → AppState re fl rand ch u json × ℕ
  vfs_delete locks s path =
      let (vfs', removed) = remove_node locks s.hub.vfs path in
      (
        record s { hub = record s.hub { vfs = vfs' } },
        elim removed [ none ↦ 404 | some node ↦ 200 ],
      )

  unfoldable pub send_message :
      AppState re fl rand ch u json
      → Nanos
      → Moment re fl rand ch u
      → Message x
      → AppState re fl rand ch u json × MessageResponse
  send_message s now t msg =
      let (s', decision) =
        route_message re fl rand ch u json (record s { messages = s.messages ++ msg ∷ [] }) now t
          msg in
      (
        record s' { hub = deliver re fl rand ch u s'.hub t decision.selected msg },
        record {
          message_id = msg.id;
          status = routed;
          routed_to = singleton? decision.selected;
          explanation = some decision.explanation;
          latency_ms = 0;
        },
      )

  -- `post` is that of the tool servers.
  unfoldable pub call_mcp_tool :
      (Text → x.Value → Text ⊎ x.Value)
      → AppState re fl rand ch u json
      → Text
      → x.Value
      → ToolReply x
  call_mcp_tool post s name body = elim (call_tool_by_name post s.mcp name body) [
    | inl error ↦ tool_error error
    | inr found ↦ elim found [ none ↦ tool_not_found | some value ↦ result value ]
  ]

  -- The proxy on the parts that the state shares with it, and the state after it.
  abbrev pub proxy_of : AppState re fl rand ch u json → Text → Map Text Text → ProxyState fl rand x
  proxy_of s default_model model_aliases = record {
    endpoints = s.endpoints;
    quantum = s.hub.quantum;
    default_model = default_model;
    model_aliases = model_aliases;
    circuit = s.circuit;
  }

  abbrev pub after_proxy :
      AppState re fl rand ch u json → ProxyState fl rand x → AppState re fl rand ch u json
  after_proxy s p = record s { hub = record s.hub { quantum = p.quantum }; circuit = p.circuit }

  unfoldable pub ai_completions :
      Upstream x
      → Text
      → Map Text Text
      → AppState re fl rand ch u json
      → Arrival fl rand
      → ChatCompletionRequest x
      → AppState re fl rand ch u json × Answer x
  ai_completions up default_model model_aliases s t req =
      let (p, answer) =
        chat_completions_handler fl rand up (proxy_of s default_model model_aliases) t req in
      (after_proxy s p, answer)

  -- `data.get("tool").and_then(|v| v.as_str()).unwrap_or("unknown")`
  abbrev pub text_of : Option x.Value → Option Text
  text_of none = none
  text_of (some v) = json.as_str v

  abbrev pub tool_name : x.Value → Text
  tool_name input = or_stand_in (codes "unknown") (text_of (json.get input (codes "tool")))

  abbrev pub arguments_of : x.Value → x.Value
  arguments_of input = or_stand_in json.null (json.get input (codes "arguments"))

  -- What the configuration, the other packages and the moment of the request give.
  pub record Surroundings : Type 0 where
    pub up : Upstream x
    pub default_model : Text
    pub model_aliases : Map Text Text
    pub post : Text → x.Value → Text ⊎ x.Value
    pub as_message : x.Value → Text ⊎ Message x
    pub as_chat : x.Value → Text ⊎ ChatCompletionRequest x
    pub instant : Nanos
    pub moment : Moment re fl rand ch u
    pub arrival : Arrival fl rand

  unfoldable pub orchestrate :
      Surroundings
      → AppState re fl rand ch u json
      → OrchestrateRequest x
      → AppState re fl rand ch u json × OrchestrateReply x
  unfolding send_message call_mcp_tool ai_completions
  orchestrate w s req =
      let as_sent : AppState re fl rand ch u json × OrchestrateReply x =
        elim (w.as_message req.input) [
          | inl e ↦ (s, bad_request (codes "invalid message: " ++ e))
          | inr msg ↦ let (s', r) = send_message s w.instant w.moment msg in (s', sent r)
        ] in
      let as_completed : AppState re fl rand ch u json × OrchestrateReply x =
        elim (w.as_chat req.input) [
          | inl e ↦ (s, bad_request (codes "invalid chat request: " ++ e))
          | inr chat ↦
              let (s', a) = ai_completions w.up w.default_model w.model_aliases s w.arrival chat in
              (s', completed a)
        ] in
      if req.intent == codes "send_message"
      then as_sent
      else if req.intent == codes "call_tool"
      then (s, called (call_mcp_tool w.post s (tool_name req.input) (arguments_of req.input)))
      else if req.intent == codes "complete_chat"
      then as_completed
      else (s, bad_request unknown_intent)
