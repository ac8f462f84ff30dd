-- ===== src/Discovery/Scans.antt =====
-- src/ai/discovery.rs and src/docker.rs: what a scan adds, keeps and removes.
use xfiles.Prelude.{
  ◌≡◌, inl, inr, Option, none, some, [], ◌∷◌, arith, if◌then◌else◌, eq_iff, Text, text_eq, Map,
  Bool-cases,
}
use xfiles.Prelude.Maps.{
  get, insert, contains_key, IsMap, get-insert, insert-IsMap, contains_key-get,
}
use xfiles.Message.{Opaque}
use xfiles.Ai.Endpoints.{AiEndpoint}
use xfiles.Discovery.{add_found, is_stale, prune_stale, scan}
use xfiles.Docker.{
  is_stale as is_stale_container, prune_stale as prune_containers, scan as scan_containers,
}

-- The first of two entries.
abbrev pub first_of {ℓ} : {A : Type ℓ} → Option A → Option A → Option A
first_of none b = b
first_of (some a) b = some a

module _ {x : Opaque} where
  -- What was there stays, and the first of what was found is added.
  pub get-add_found :
      (m found : Map Text (AiEndpoint x)) (k : Text)
      → get (add_found m found) k ≡ first_of (get m k) (get found k)
  unfolding add_found get
  get-add_found m [] k = ground arith
  get-add_found m ((id, ep) ∷ found) k = ground (
    arith,
    get-add_found (if contains_key m id then m else insert m id ep) found k,
    contains_key-get m id,
    get-insert m id k ep,
    eq_iff id k,
  )

  pub add_found-IsMap : (m found : Map Text (AiEndpoint x)) → IsMap m → IsMap (add_found m found)
  unfolding add_found
  add_found-IsMap m [] h = h
  add_found-IsMap m ((id, ep) ∷ found) h =
      add_found-IsMap (if contains_key m id then m else insert m id ep) found
        (elim (Bool-cases (contains_key m id)) [
          | inl e ↦ rw e h
          | inr e ↦ rw e (insert-IsMap m id ep h)
        ])
