-- ===== src/Tests/Services.antt =====
-- src/proxy.rs, src/ai/discovery.rs, src/docker.rs, src/api.rs and the queue on small tables.
use xfiles.Prelude.{
  arith, ℕ, ◌≡◌, ◌⊎◌, inr, refl, true, false, Option, none, some, List, [], ◌∷◌, In, if◌then◌else◌,
  ◌==◌, Text, text_eq, nat_eq, codes, Map,
}
use xfiles.Prelude.Maps.{get as get_entry}
use xfiles.Prelude.Texts.{text_beq, starts_with}
use xfiles.Prelude.Numbers.{contains_text, show_u16}
use xfiles.Agent.{get as get_agent}
use xfiles.Ai.Endpoints.{AiEndpoint, memory, router, default_health}
use xfiles.Quantum.Router.{QuantumRouter, route, new as new_router}
use xfiles.Quantum.Router.Fresh.{route_fresh}
use xfiles.Queue.{waiting}
use xfiles.Queue.Refinement.{Act, adds, drains, prunes, act_all, AllowsAll, act_all-AllowsAll}
use xfiles.Vfs.Paths.{normalize}
use xfiles.Vfs.Registry.{get_node}
use xfiles.Vfs.Registry.Contents.{forget?}
use xfiles.Vfs.Registry.Unmount.{IsInNamespace}
use xfiles.Daemon.{msg_handler}
use xfiles.Proxy.{
  ChatCompletionRequest, Upstream, unavailable, no_endpoints, ObservingStream, Poll, pending,
  failed, finished, is_offline, record_in, candidates, ProxyState, Moment as Arrival, resolve_model,
  choose, observe_in, message_of, send, chat_completions_handler,
}
use xfiles.Proxy.Choice.{succeeded, is_streaming, IsUnavailable, chat_completions_handler_lem}
use xfiles.Proxy.Stream.{outcome, observe_outcome, poll_all, poll_all_lem}
use xfiles.Discovery.{service_at, scan}
use xfiles.Docker.Ports.{port_of-show_u16}
use xfiles.Docker.{port_of, Container, scan as scan_containers}
use xfiles.Api.{unregister_agent, send_message}
use xfiles.Api.Agents.{unregister_agent_lem}
use xfiles.Api.Messages.{send_message-msg_handler}
use xfiles.Tests.Samples.{opaque, prefixes, ascii, sample, live_channel}
use xfiles.Tests.Floats.{thousandths, steady}
use xfiles.Tests.Hub.{two_channels, json, weights, moment, app, put_takes}
use xfiles.Tests.Queue.{mailbox, mailbox-IsClean}

abbrev endpoint : AiEndpoint opaque
endpoint = record {
  id = codes "ep-a";
  name = codes "a";
  url = codes "http://a/";
  endpoint_type = memory;
  weight = 1;
  tags = [];
  headers = [];
  health = default_health 0;
}

abbrev table : Map Text (AiEndpoint opaque)
table = (codes "ep-a", endpoint) ∷ []

-- An upstream that answers every request with the status 500 and a body.
abbrev upstream : Upstream opaque
upstream = record {
  post = λ url headers body. inr (500, inr (codes "{}"));
  to_string = λ req. req.model;
  to_value = λ req. req.model;
  null = codes "null";
  with_text = λ json key t. json;
  with_nat = λ json key n. json;
}

abbrev chat : ChatCompletionRequest opaque
chat = record {
  model = codes "default";
  messages = [];
  stream = false;
  temperature = none;
  max_tokens = none;
  tools = none;
  extra = codes "null";
}

abbrev proxy : ProxyState thousandths steady opaque
proxy = record {
  endpoints = table;
  quantum = some weights;
  default_model = codes "kimi-k2.6";
  model_aliases = (codes "default", codes "kimi-k2.6") ∷ [];
  circuit = some (record {
    state = [];
    failure_threshold = 5;
    recovery_timeout = 60;
    half_open_max_calls = 3;
  });
}

abbrev arrival : Arrival thousandths steady
arrival = record {
  instant = 5;
  utc = 5;
  rng = 0;
  id = 11;
  conversation_id = 12;
  instant_after = 9;
  utc_after = 9;
  latency_ms = 4;
}

chat_completions_handler_lem_example :
    let (s', answer) = chat_completions_handler thousandths steady upstream proxy arrival chat in
    let (circuit', ids) = candidates proxy.circuit arrival.instant proxy.endpoints in
    let req' = resolve_model thousandths steady proxy chat in
    ((ids ≡ []) × (s' ≡ record proxy { circuit = circuit' }) × (answer ≡ unavailable no_endpoints))
    ⊎ ((id : Text) × (e : AiEndpoint opaque) × (q : Option (QuantumRouter thousandths)) × In id ids
        × (get_entry proxy.endpoints id ≡ some e)
        × (is_offline e.health.status ≡ false)
        × (choose thousandths steady proxy.quantum arrival
              (message_of thousandths steady upstream arrival req')
              ids
            ≡ (q, some id))
        × (s'.circuit
            ≡ record_in circuit' arrival.instant_after id
                (succeeded (send thousandths steady upstream e req')))
        × (s'.quantum ≡ (
            if is_streaming req'.stream (send thousandths steady upstream e req')
            then q
            else observe_in thousandths steady q arrival.utc_after arrival.conversation_id id
                (succeeded (send thousandths steady upstream e req'))
                arrival.latency_ms))
        × (¬ IsUnavailable answer))
unfolding get_entry
chat_completions_handler_lem_example =
    chat_completions_handler_lem thousandths steady upstream proxy arrival chat (refl, tt)
      (refl, tt)

abbrev stream : ObservingStream
stream = record {
  conversation_id = 12;
  endpoint_id = codes "ep-a";
  observed = false;
  success = true;
}

abbrev polls : List (ℕ × ℕ × Poll)
polls = (1, 1, pending) ∷ (2, 2, failed (codes "reset")) ∷ (3, 3, finished) ∷ []

poll_all_lem_example :
    poll_all thousandths steady (some weights) stream polls
    ≡ observe_outcome thousandths steady (some weights) stream (outcome stream.success polls)
poll_all_lem_example = poll_all_lem thousandths steady (some weights) stream polls refl

abbrev ids : List Text
ids = codes "ep-a" ∷ codes "ep-b" ∷ []

route_fresh_example :
    (route thousandths steady weights 5 0 sample ids).1
    ≡ (route thousandths steady (new_router thousandths weights.config) 5 0 sample ids).1
unfolding get_entry
route_fresh_example = route_fresh thousandths steady weights 5 0 sample ids refl refl

abbrev acts : List (Act live_channel)
acts = adds 5 (codes "eve") sample ∷ drains (codes "bob") tt ∷ prunes 9 ∷ []

act_all-AllowsAll_example :
    let r = act_all live_channel (mailbox, []) acts in
    AllowsAll live_channel (waiting mailbox) [] acts (waiting r.0) r.1
act_all-AllowsAll_example = act_all-AllowsAll live_channel mailbox [] acts mailbox-IsClean

-- Only the port 8080 answers.
abbrev fetch : Text → Option ℕ
fetch url = if url == codes "http://127.0.0.1:8080/health" then some 200 else none

abbrev container : Container
container = record {
  id = some (codes "0123456789abcdef");
  labels = some ((codes "ai.xfiles.service", codes "ollama") ∷ []);
  ports = none;
}

abbrev one : ℕ
one = 1

-- The search for a port's digits also meets those of a longer one.
longer_port : service_at (codes "http://127.0.0.1:30001") ≡ (codes "tensorzero", router)
unfolding service_at contains_text starts_with
longer_port = refl

unregister_agent_lem_example :
    let s' =
      unregister_agent prefixes thousandths steady two_channels ascii json
        (λ p. true)
        app
        (codes "bob") in
    let found = forget? (get_node s'.hub.vfs (codes "/net/bob")) in
    (get_agent s'.hub.agents (codes "bob")
      ≡ (if codes "bob" == codes "bob" then none else get_agent app.hub.agents (codes "bob")))
    × ((IsInNamespace (codes "bob") (normalize (codes "/net/bob")) × (found ≡ none))
        ⊎ ((¬ IsInNamespace (codes "bob") (normalize (codes "/net/bob")))
            × (found ≡ forget? (get_node app.hub.vfs (codes "/net/bob")))))
    × (s'.hub.queue ≡ app.hub.queue)
unfolding get_entry
unregister_agent_lem_example =
    unregister_agent_lem prefixes thousandths steady two_channels ascii json (λ p. true) app
      (codes "bob") (codes "bob") (codes "/net/bob") (refl, tt)

send_message-msg_handler_example :
    send_message prefixes thousandths steady two_channels ascii json app 5 moment sample
    ≡ msg_handler prefixes thousandths steady two_channels ascii json app 5 moment sample
send_message-msg_handler_example =
    send_message-msg_handler prefixes thousandths steady two_channels ascii json app 5 moment sample
      put_takes

abbrev labelled : Map Text Text
labelled = (codes "ai.xfiles.port", show_u16 11434) ∷ []

port_of-show_u16_example : port_of labelled none ≡ 11434
unfolding get_entry text_beq
port_of-show_u16_example = port_of-show_u16 labelled none 11434 (omega arith) refl
