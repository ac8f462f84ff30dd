-- ===== src/Config.antt =====
-- src/config.rs: the configuration, its defaults and the variables that override it. Socket addresses, the
-- file system and the TOML parser are parameters.
pub mod Env
use xfiles.Prelude.{
  ℕ, ◌^◌, Bool, true, false, Option, none, some, List, [], ◌∷◌, if◌then◌else◌, ◌==◌, Text, text_eq,
  codes, Map,
}
use xfiles.Prelude.Numbers.{parse_unsigned}
use xfiles.Message.{Opaque}
use xfiles.Floats.{Floats}
use xfiles.Plumber.{ConfigRule}
use xfiles.Quantum.Router.{QuantumConfig}
use xfiles.Ai.Endpoints.{ConfigEndpoint}
use xfiles.Auth.{AuthConfig}

pub record HubConfig (Addr : Type 0) : Type 0 where
  pub bind_addr : Addr
  pub max_agents : ℕ
  pub heartbeat_interval_secs : ℕ
  pub probe_interval_secs : ℕ
  pub database_url : Text

pub record DiscoveryConfig : Type 0 where
  pub scan_ports : List ℕ
  pub scan_interval_secs : ℕ
  pub docker_enabled : Bool

pub record RateLimitConfig : Type 0 where
  pub enabled : Bool
  pub max_requests : ℕ
  pub window_secs : ℕ

pub record CircuitBreakerConfig : Type 0 where
  pub enabled : Bool
  pub failure_threshold : ℕ
  pub recovery_timeout_secs : ℕ
  pub half_open_max_calls : ℕ

pub record TlsConfig : Type 0 where
  pub enabled : Bool
  pub cert_path : Option Text
  pub key_path : Option Text
  pub client_ca_path : Option Text

-- `ai` and `plumber` are their lists.
pub record Config (x : Opaque) (fl : Floats) (Addr : Type 0) : Type 0 where
  pub hub : HubConfig Addr
  pub quantum : QuantumConfig fl
  pub discovery : DiscoveryConfig
  pub ai : List (ConfigEndpoint x)
  pub plumber : List ConfigRule
  pub default_model : Text
  pub model_aliases : Map Text Text
  pub auth : AuthConfig
  pub rate_limit : RateLimitConfig
  pub circuit : CircuitBreakerConfig
  pub tls : TlsConfig

abbrev pub default_model : Text
default_model = codes "kimi-k2.6"

abbrev pub default_hub : {Addr : Type 0} → Addr → HubConfig Addr
default_hub default_bind = record {
  bind_addr = default_bind;
  max_agents = 100;
  heartbeat_interval_secs = 30;
  probe_interval_secs = 30;
  database_url = codes "sqlite:xfiles.db";
}

abbrev pub default_quantum : (fl : Floats) → QuantumConfig fl
default_quantum fl = record {
  enabled = true;
  decoherence_rate = fl.dec 5 2;
  exploration_rate = fl.dec 15 2;
  entanglement_window = 10;
  min_samples_before_exploit = 5;
}

abbrev pub default_discovery : DiscoveryConfig
default_discovery = record {
  scan_ports = 3000 ∷ 8080 ∷ 7777 ∷ 8000 ∷ 11434 ∷ 9000 ∷ [];
  scan_interval_secs = 60;
  docker_enabled = false;
}

abbrev pub default_rate_limit : RateLimitConfig
default_rate_limit = record { enabled = true; max_requests = 100; window_secs = 60 }

abbrev pub default_breaker : CircuitBreakerConfig
default_breaker = record {
  enabled = true;
  failure_threshold = 5;
  recovery_timeout_secs = 30;
  half_open_max_calls = 3;
}

abbrev pub default_tls : TlsConfig
default_tls = record { enabled = false; cert_path = none; key_path = none; client_ca_path = none }

-- `parse` on `bool`
abbrev pub parse_bool : Text → Option Bool
parse_bool s =
    if s == codes "true" then some true else if s == codes "false" then some false else none

-- What a variable says in place of a value, where it is set; a text that does not parse is an error.
abbrev pub override {ℓ} : {A : Type ℓ} → (Text → Option A) → Option Text → A → Option A
override parse none a = some a
override parse (some v) a = parse v

-- What a flag says in place of another; a text that does not parse counts as true.
abbrev pub override_flag : Option Text → Bool → Bool
override_flag none b = b
override_flag (some v) b = elim (parse_bool v) [ none ↦ true | some flag ↦ flag ]

abbrev pub path_or_default : Option Text → Text
path_or_default none = codes "xfiles.toml"
path_or_default (some path) = path

module _ {x : Opaque} {fl : Floats} {Addr : Type 0} (default_bind : Addr) where
  -- `Config::default`
  unfoldable pub default_config : Config x fl Addr
  default_config = record {
    hub = default_hub default_bind;
    quantum = default_quantum fl;
    discovery = default_discovery;
    ai = [];
    plumber = [];
    default_model = default_model;
    model_aliases = (codes "default", default_model) ∷ [];
    auth = record { api_key = none; agent_token = none };
    rate_limit = default_rate_limit;
    circuit = default_breaker;
    tls = default_tls;
  }

  module _ (var : Text → Option Text) (file : Text → Option (Option Text))
      (from_toml : Text → Option (Config x fl Addr)) (parse_addr : Text → Option Addr) where
    -- The file, or the defaults where there is none; `file` gives for a file that is there what it reads.
    unfoldable pub load_file : Option (Config x fl Addr)
    unfolding default_config
    load_file = elim (file (path_or_default (var (codes "XFILES_CONFIG")))) [
      | none ↦ some default_config
      | some text ↦ elim text [ none ↦ none | some contents ↦ from_toml contents ]
    ]

    -- The configuration after the variables; the texts of the errors are left out.
    unfoldable pub apply_env : Config x fl Addr → Option (Config x fl Addr)
    apply_env cfg = elim (override parse_addr (var (codes "XFILES_BIND")) cfg.hub.bind_addr) [
      | none ↦ none
      | some bind_addr ↦
          elim (override (parse_unsigned (2 ^ 64)) (var (codes "XFILES_MAX_AGENTS"))
            cfg.hub.max_agents) [
              | none ↦ none
              | some max_agents ↦ some (record cfg {
                hub = record cfg.hub { bind_addr = bind_addr; max_agents = max_agents };
                quantum = record cfg.quantum {
                  enabled =
                      override_flag (var (codes "XFILES_QUANTUM_ENABLED")) cfg.quantum.enabled;
                };
              })
            ]
    ]

    unfoldable pub from_env : Option (Config x fl Addr)
    unfolding load_file apply_env
    from_env = elim load_file [ none ↦ none | some cfg ↦ apply_env cfg ]
