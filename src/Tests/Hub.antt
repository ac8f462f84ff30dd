-- ===== src/Tests/Hub.antt =====
-- src/net/transport.rs, src/daemon.rs and src/auth.rs on a small hub with two channels.
use xfiles.Prelude.{
  ℕ, zero, suc, ◌<◌, ◌*◌, ◌+◌, max, ◌≡◌, ◌⊎◌, inr, refl, Bool, true, false, none, some, List, [],
  ◌∷◌, ◌++◌, All, arith, leb, if◌then◌else◌, Text, text_eq, nat_eq, codes, contains, filter,
}
use xfiles.Prelude.Maps.{get as get_entry}
use xfiles.Prelude.Texts.{text_beq, trim, is_whitespace}
use xfiles.Prelude.Time.{from_secs}
use xfiles.Message.{hello, ProtocolOp, CapabilityManifest, message, FeedbackEvent}
use xfiles.Channel.{Channels}
use xfiles.Agent.{Agent, AgentRegistry, get}
use xfiles.Quantum.Router.{QuantumRouter, QuantumConfig}
use xfiles.Queue.{waiting}
use xfiles.Queue.Delivery.{ops}
use xfiles.Mcp.{Json}
use xfiles.Vfs.Paths.{normalize, join, resolve, split, extend_first}
use xfiles.Vfs.Vnode.{Utf8, Vnode}
use xfiles.Vfs.Registry.{get_node, net_prefix}
use xfiles.Transport.{Hub, Moment, deliver, handle_hello}
use xfiles.Transport.Delivery.{handle_hello-deliver}
use xfiles.Transport.Sessions.{ran, ended, Leads, start, next, HasChannel, Leads-HasChannel}
use xfiles.Daemon.{
  AppState, contents, written, grpc_deliver_to, deliver_selected, fs_read_handler, fs_write_handler,
  cleanup_agents,
}
use xfiles.Daemon.Delivery.{IsKept, handlers-IsKept}
use xfiles.Daemon.Files.{fs_read_handler-fs_write_handler}
use xfiles.Daemon.Upkeep.{get-cleanup_agents}
use xfiles.Auth.{AuthConfig, api_key_middleware}
use xfiles.Auth.Access.{IsPublic, Shows, api_key_middleware_lem}
use xfiles.Tests.Samples.{opaque, prefixes, ascii, sample, true_ne_false}
use xfiles.Tests.Floats.{thousandths, steady}

-- What each of two channels was given.
abbrev pub Sent : Type 0
Sent = List (ProtocolOp opaque) × List (ProtocolOp opaque)

abbrev pub put : Sent → Bool → ProtocolOp opaque → Sent × Bool
put (l, r) false o = ((l ++ o ∷ [], r), true)
put (l, r) true o = ((l, r ++ o ∷ []), true)

abbrev pub same : Bool → Bool → Bool
same false false = true
same false true = false
same true false = false
same true true = true

abbrev pub given : Sent → Bool → List (ProtocolOp opaque)
given (l, r) false = l
given (l, r) true = r

pub given-put :
    (n : Sent) (s : Bool) (o : ProtocolOp opaque) → given (put n s o).0 s ≡ given n s ++ o ∷ []
given-put (l, r) false o = refl
given-put (l, r) true o = refl

pub put_takes : (n : Sent) (s : Bool) (o : ProtocolOp opaque) → (put n s o).1 ≡ true
put_takes (l, r) false o = refl
put_takes (l, r) true o = refl

pub put_err :
    (n : Sent) (s : Bool) (o : ProtocolOp opaque) → (put n s o).1 ≡ false → (put n s o).0 ≡ n
put_err (l, r) false o h = absurd (true_ne_false h)
put_err (l, r) true o h = absurd (true_ne_false h)

pub given-put_other :
    (n : Sent) (s t : Bool) (o : ProtocolOp opaque)
    → same s t ≡ false
    → given (put n s o).0 t ≡ given n t
given-put_other (l, r) false false o h = absurd (true_ne_false h)
given-put_other (l, r) false true o h = refl
given-put_other (l, r) true false o h = refl
given-put_other (l, r) true true o h = absurd (true_ne_false h)

abbrev pub two_channels : Channels (ProtocolOp opaque)
two_channels = record {
  Sender = Bool;
  Net = Sent;
  send = put;
  same_channel = same;
  sent = given;
  sent-send_ok = λ n s o h. given-put n s o;
  send_err = put_err;
  sent-send_other = given-put_other;
}

abbrev pub json : Json opaque
json = record { get = λ v k. some v; as_str = λ v. some v; null = codes "null" }

abbrev manifest : CapabilityManifest opaque
manifest = record {
  agent_id = codes "bob";
  hostname = codes "h";
  capabilities = [];
  preferred_namespace = none;
}

abbrev pub bob : Agent opaque Bool
bob = record {
  id = codes "bob";
  uuid = 4;
  hostname = codes "h";
  namespace = codes "/net/bob";
  manifest = manifest;
  connected_at = 0;
  last_heartbeat = from_secs 10;
  tx = some true;
}

abbrev pub config : QuantumConfig thousandths
config = record {
  enabled = true;
  decoherence_rate = 10;
  exploration_rate = 100;
  entanglement_window = 300;
  min_samples_before_exploit = 5;
}

abbrev pub weights : QuantumRouter thousandths
weights = record {
  state = record { conversations = [] };
  entanglement = record { correlations = [] };
  config = config;
  last_endpoint = [];
}

abbrev pub motd : Vnode
motd = Vnode.file (record { name = codes "motd"; content = codes "old" })

abbrev pub hub : AgentRegistry opaque Bool → Hub prefixes thousandths steady two_channels ascii
hub agents = record {
  agents = agents;
  vfs = record { nodes = (codes "/motd", motd) ∷ [] };
  plumber = record { rules = [] };
  quantum = some weights;
  queue = record { queues = [] };
  net = ([], []);
}

abbrev pub nobody : AgentRegistry opaque Bool
nobody = record { agents = [] }

abbrev pub connected : AgentRegistry opaque Bool
connected = record { agents = (codes "bob", bob) ∷ [] }

abbrev pub moment : Moment prefixes thousandths steady two_channels ascii
moment = record { utc = 5; rng = 0; uuid = 4 }

handle_hello-deliver_example :
    let h₁ =
      deliver prefixes thousandths steady two_channels ascii
        (hub nobody)
        moment
        (some (net_prefix ++ codes "bob"))
        sample in
    let h₂ =
      handle_hello prefixes thousandths steady two_channels ascii h₁ moment
        (codes "bob")
        true
        manifest in
    (given h₂.net true
      ≡ (given (hub nobody).net true ++ ops (waiting (hub nobody).queue (codes "bob")))
        ++ message sample ∷ [])
    × (waiting h₂.queue (codes "bob") ≡ [])
    × ((a : Agent opaque Bool) × (get h₂.agents (codes "bob") ≡ some a) × (a.tx ≡ some true))
unfolding get get_entry contains
handle_hello-deliver_example =
    handle_hello-deliver prefixes thousandths steady two_channels ascii (hub nobody) moment moment
      (codes "bob") sample true manifest refl refl (λ n o. put_takes n true o)

-- The connection over the channel `false` ends, which that over `true` has superseded, and the agent says
-- hello over `true` once more.
superseded :
    (h : Hub prefixes thousandths steady two_channels ascii) × Leads prefixes thousandths steady
      two_channels ascii
      (codes "bob")
      true
      (hub connected)
      h
superseded = (
  _,
  next _ (ran moment (codes "bob") true (hello manifest))
      (next (hub connected) (ended (codes "bob") false) start (inr refl)) (inr refl),
)

Leads-HasChannel_example :
    HasChannel prefixes thousandths steady two_channels ascii (codes "bob") true superseded.0.agents
unfolding get get_entry text_beq
Leads-HasChannel_example =
    Leads-HasChannel prefixes thousandths steady two_channels ascii (codes "bob") true
      (hub connected) superseded.0 superseded.1 (bob, refl, refl)

handlers-IsKept_example :
    IsKept prefixes thousandths steady two_channels ascii json
      (hub connected)
      (grpc_deliver_to prefixes thousandths steady two_channels ascii json
        (hub connected)
        moment
        (net_prefix ++ codes "bob")
        sample)
      moment
      (codes "bob")
      sample
    × (IsKept prefixes thousandths steady two_channels ascii json
          (hub connected)
          (deliver_selected prefixes thousandths steady two_channels ascii json
            (hub connected)
            moment
            (some (net_prefix ++ codes "bob"))
            sample)
          moment
          (codes "bob")
          sample
        ⊎ ((a : Agent opaque Bool) × (get (hub connected).agents (codes "bob") ≡ some a)
            × (a.tx ≡ none)
            × (deliver_selected prefixes thousandths steady two_channels ascii json
                  (hub connected)
                  moment
                  (some (net_prefix ++ codes "bob"))
                  sample
                ≡ hub connected)))
unfolding contains
handlers-IsKept_example =
    handlers-IsKept prefixes thousandths steady two_channels ascii json (hub connected) moment
      (codes "bob") sample refl

fs_read_handler-fs_write_handler_example :
    let (h', answer) =
      fs_write_handler prefixes thousandths steady two_channels ascii json
        (hub nobody)
        (codes "/motd")
        (codes "new") in
    (answer ≡ written (codes "/motd"))
    × (fs_read_handler prefixes thousandths steady two_channels ascii json h' (codes "/motd")
        ≡ contents (codes "/motd") (codes "new"))
unfolding get_node get_entry text_beq normalize trim is_whitespace join resolve filter split
    extend_first
fs_read_handler-fs_write_handler_example =
    fs_read_handler-fs_write_handler prefixes thousandths steady two_channels ascii json
      (hub nobody) (codes "/motd") (codes "new") motd refl refl

get-cleanup_agents_example :
    get
      (cleanup_agents prefixes thousandths steady two_channels ascii json connected
        (from_secs 200)
        30)
      (codes "bob")
    ≡ (elim (get connected (codes "bob")) [
      | none ↦ none
      | some a ↦
          if leb (a.last_heartbeat + from_secs (max (2 * 30) 120 + 1)) (from_secs 200)
          then none
          else some a
    ])
unfolding get_entry
get-cleanup_agents_example =
    get-cleanup_agents prefixes thousandths steady two_channels ascii json connected (from_secs 200)
      30 (codes "bob") (refl, tt) (omega arith)

abbrev pub app : AppState prefixes thousandths steady two_channels ascii json
app = record {
  hub = hub connected;
  circuit = none;
  mcp = record { clients = []; tool_index = [] };
  endpoints = [];
  quantum_config = config;
  messages = [];
  feedback = [];
}

abbrev verdict : FeedbackEvent opaque
verdict = record {
  message_id = 1;
  endpoint_id = codes "ep-a";
  success = true;
  latency_ms = 20;
  quality_score = none;
  error_kind = none;
  metadata = none;
}

-- An encoding of texts that needs no byte above 1: a code point is so many ones and a zero.
unary : ℕ → List ℕ → List ℕ
unary zero rest = 0 ∷ rest
unary (suc c) rest = 1 ∷ unary c rest

abbrev to_unary : Text → List ℕ
to_unary [] = []
to_unary (c ∷ t) = unary c (to_unary t)

abbrev of_unary : ℕ → List ℕ → Text
of_unary c [] = []
of_unary c (zero ∷ bytes) = c ∷ of_unary 0 bytes
of_unary c (suc b ∷ bytes) = of_unary (suc c) bytes

of_unary-unary : (k c : ℕ) (rest : List ℕ) → of_unary k (unary c rest) ≡ (k + c) ∷ of_unary 0 rest
unfolding unary
of_unary-unary k zero rest = ground arith
of_unary-unary k (suc c) rest = ground (arith, of_unary-unary (suc k) c rest)

of_unary-to_unary : (t : Text) → of_unary 0 (to_unary t) ≡ t
of_unary-to_unary [] = refl
of_unary-to_unary (c ∷ t) = ground (arith, of_unary-unary 0 c (to_unary t), of_unary-to_unary t)

unary_lt : (c : ℕ) (rest : List ℕ) → All (λ b. b < 256) rest → All (λ b. b < 256) (unary c rest)
unfolding unary
unary_lt zero rest h = (omega arith, h)
unary_lt (suc c) rest h = (omega arith, unary_lt c rest h)

to_unary_lt : (t : Text) → All (λ b. b < 256) (to_unary t)
to_unary_lt [] = tt
to_unary_lt (c ∷ t) = unary_lt c (to_unary t) (to_unary_lt t)

abbrev plain : Utf8
plain = record {
  as_bytes = to_unary;
  from_utf8_lossy = of_unary 0;
  from_utf8_lossy-as_bytes = of_unary-to_unary;
}

abbrev keys : AuthConfig
keys = record { api_key = some (codes "k1"); agent_token = none }

abbrev unauthorized : ℕ
unauthorized = 401

abbrev answered : ℕ
answered = 200

api_key_middleware_lem_example :
    let answer =
      api_key_middleware plain unauthorized keys false
        (codes "/msg")
        (some (codes "Bearer k1"))
        answered in
    (((false ≡ true) ⊎ IsPublic (codes "/msg") ⊎ Shows keys.api_key (some (codes "Bearer k1")))
      × (answer ≡ answered))
    ⊎ ((false ≡ false)
        × (¬ IsPublic (codes "/msg"))
        × (¬ Shows keys.api_key (some (codes "Bearer k1")))
        × (answer ≡ unauthorized))
api_key_middleware_lem_example =
    api_key_middleware_lem plain to_unary_lt unauthorized keys false (codes "/msg")
      (some (codes "Bearer k1")) answered
