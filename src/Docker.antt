-- ===== src/Docker.antt =====
-- src/docker.rs: the endpoints that a scan of the running containers finds. What Docker lists is an
-- argument, and the weight 1.0 too.
pub mod Ports
use xfiles.Prelude.{
  ℕ, ◌^◌, ◌&&◌, Bool, not, Option, none, some, List, [], ◌∷◌, ◌++◌, ◌⊎◌, inl, inr, contains, first,
  Text, text_eq, codes, Map,
}
use xfiles.Prelude.Maps.{get, remove_where, keys}
use xfiles.Prelude.Numbers.{parse_unsigned, take}
use xfiles.Prelude.Time.{Nanos}
use xfiles.Message.{Opaque}
use xfiles.Ai.Endpoints.{AiEndpoint, EndpointType, api, from_str}
use xfiles.Discovery.{auto_discovered, docker, local, discovered, add_found}

-- `public_port`
pub record Port : Type 0 where
  pub public_port : Option ℕ

pub record Container : Type 0 where
  pub id : Option Text
  pub labels : Option (Map Text Text)
  pub ports : Option (List Port)

abbrev pub or_value {ℓ} : {A : Type ℓ} → A → Option A → A
or_value a none = a
or_value a (some b) = b

abbrev public_port_of : Option Port → Option ℕ
public_port_of none = none
public_port_of (some p) = p.public_port

unfoldable pub extract_first_port : Option (List Port) → Option ℕ
extract_first_port ports = public_port_of (first (or_value [] ports))

abbrev pub parse_u16 : Option Text → Option ℕ
parse_u16 none = none
parse_u16 (some p) = parse_unsigned (2 ^ 16) p

abbrev pub or_else {ℓ} : {A : Type ℓ} → Option A → Option A → Option A
or_else none b = b
or_else (some a) b = some a

unfoldable pub port_of : Map Text Text → Option (List Port) → ℕ
unfolding extract_first_port
port_of labels ports =
    or_value 8080
      (or_else (parse_u16 (get labels (codes "ai.xfiles.port"))) (extract_first_port ports))

abbrev or_api : Text ⊎ EndpointType → EndpointType
or_api (inl error) = api
or_api (inr t) = t

module _ {x : Opaque} where
  unfoldable pub is_stale : List Text → Text × AiEndpoint x → Bool
  is_stale found_ids e = contains e.1.tags docker && not (contains found_ids e.0)

  unfoldable pub prune_stale : Map Text (AiEndpoint x) → List Text → Map Text (AiEndpoint x)
  unfolding is_stale
  prune_stale endpoints found_ids = remove_where (is_stale found_ids) endpoints

module _ {x : Opaque} (one : x.F64) where
  abbrev pub service_of : Nanos → Container → Map Text Text → Text → Text × AiEndpoint x
  service_of now c labels service_name =
      let id = codes "docker-" ++ service_name ++ codes "-" ++ take 12 (or_value [] c.id) in
      let service_type = or_value (codes "api") (get labels (codes "ai.xfiles.type")) in
      (
        id,
        discovered one id (codes "docker-" ++ service_name) (local (port_of labels c.ports))
            (or_api (from_str service_type)) (docker ∷ auto_discovered ∷ []) now,
      )

  unfoldable pub found_in : Nanos → List Container → Map Text (AiEndpoint x)
  unfolding port_of
  found_in now [] = []
  found_in now (c ∷ containers) =
      let labels = or_value [] c.labels in
      elim (get labels (codes "ai.xfiles.service")) [
        | none ↦ found_in now containers
        | some service_name ↦ service_of now c labels service_name ∷ found_in now containers
      ]

  -- A failure of `list_containers` ends the scan before it changes anything.
  unfoldable pub scan :
      Map Text (AiEndpoint x) → Nanos → Text ⊎ List Container → Map Text (AiEndpoint x)
  unfolding found_in prune_stale
  scan endpoints now (inl error) = endpoints
  scan endpoints now (inr containers) =
      let found = found_in now containers in prune_stale (add_found endpoints found) (keys found)
