-- ===== src/Ai/Endpoints.antt =====
-- src/ai/endpoints.rs: the endpoints and what is known of their health. Random ids and the clock are
-- arguments.
use xfiles.Prelude.{
  ℕ, ◌≡◌, refl, Option, none, List, ◌++◌, arith, if◌then◌else◌, ◌==◌, eq_iff, Text, text_eq, codes,
  Map, inl, inr, ◌⊎◌, ◌↔◌,
}
use xfiles.Prelude.Texts.{text_beq}
use xfiles.Prelude.Time.{Nanos}
use xfiles.Message.{Opaque}

pub data EndpointType : Type 0 where
  router inference memory agent api : EndpointType

-- `Display`
unfoldable pub display : EndpointType → Text
display router = codes "router"
display inference = codes "inference"
display memory = codes "memory"
display agent = codes "agent"
display api = codes "api"

-- `FromStr`, on the left the error.
unfoldable pub from_str : Text → Text ⊎ EndpointType
from_str s =
    if s == codes "router"
    then inr router
    else if s == codes "inference"
    then inr inference
    else if s == codes "memory"
    then inr memory
    else if s == codes "agent"
    then inr agent
    else if s == codes "api"
    then inr api
    else inl (codes "unknown endpoint type: " ++ s)

pub data HealthStatus : Type 0 where
  healthy degraded offline : HealthStatus

pub record EndpointHealth : Type 0 where
  pub status : HealthStatus
  pub last_checked : Nanos
  pub offline_since : Option Nanos
  pub consecutive_failures : ℕ
  pub probe_latency_ms : ℕ
  pub last_error : Option Text

-- `EndpointHealth::default`
abbrev pub default_health : Nanos → EndpointHealth
default_health now = record {
  status = healthy;
  last_checked = now;
  offline_since = none;
  consecutive_failures = 0;
  probe_latency_ms = 0;
  last_error = none;
}

pub record AiEndpoint (x : Opaque) : Type 0 where
  pub id : Text
  pub name : Text
  pub url : Text
  pub endpoint_type : EndpointType
  pub weight : x.F64
  pub tags : List Text
  pub headers : Map Text Text
  pub health : EndpointHealth

-- src/config.rs: an endpoint as the configuration file states it.
pub record ConfigEndpoint (x : Opaque) : Type 0 where
  pub name : Text
  pub url : Text
  pub endpoint_type : Text
  pub weight : x.F64
  pub tags : List Text
  pub headers : Map Text Text

module _ {x : Opaque} where
  -- `uuid` is the random id, as it is displayed.
  unfoldable pub from_config : ConfigEndpoint x → Text → Nanos → Text ⊎ AiEndpoint x
  from_config cfg uuid now = elim (from_str cfg.endpoint_type) [
    | inl error ↦ inl error
    | inr t ↦ inr (record {
      id = cfg.name ++ codes "-" ++ uuid;
      name = cfg.name;
      url = cfg.url;
      endpoint_type = t;
      weight = cfg.weight;
      tags = cfg.tags;
      headers = cfg.headers;
      health = default_health now;
    })
  ]

-- A text parses to a type exactly where the type is displayed as that text.
pub from_str_iff : (s : Text) (t : EndpointType) → (from_str s ≡ inr t) ↔ (s ≡ display t)
unfolding from_str display text_beq
from_str_iff s t = (parsed t, λ e. rw e (shown t))
  where
    shown : (t : EndpointType) → from_str (display t) ≡ inr t
    shown router = refl
    shown inference = refl
    shown memory = refl
    shown agent = refl
    shown api = refl

    parsed : (t : EndpointType) → from_str s ≡ inr t → s ≡ display t
    parsed t h = ground (
      arith,
      eq_iff s (codes "router"),
      eq_iff s (codes "inference"),
      eq_iff s (codes "memory"),
      eq_iff s (codes "agent"),
      eq_iff s (codes "api"),
    )
