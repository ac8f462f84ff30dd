-- ===== src/Ai/Probe/Pruning.antt =====
-- src/ai/probe.rs: which endpoints `prune_offline` removes.
use xfiles.Prelude.{
  none, some, if◌then◌else◌, Text, text_eq, Map, ℕ, ◌+◌, ◌≡◌, arith, leb, false, Bool,
}
use xfiles.Prelude.Maps.{get, IsMap, get-remove_where_by, remove_where-IsMap}
use xfiles.Prelude.Ints.{pos}
use xfiles.Prelude.Time.{Nanos, from_secs, ltb-num_seconds}
use xfiles.Message.{Opaque}
use xfiles.Ai.Endpoints.{AiEndpoint, healthy, degraded, offline}
use xfiles.Ai.Probe.{or_else, is_stale, prune_offline}

-- Whether an endpoint is offline and was first so, or else was last probed, more than some whole seconds
-- ago.
abbrev pub has_expired : {x : Opaque} → Nanos → ℕ → AiEndpoint x → Bool
has_expired now secs e = elim e.health.status [
  | healthy ↦ false
  | degraded ↦ false
  | offline ↦ elim e.health.offline_since [
    | none ↦ leb (e.health.last_checked + from_secs (secs + 1)) now
    | some since ↦ leb (since + from_secs (secs + 1)) now
  ]
]

module _ {x : Opaque} where
  is_stale_lem :
      (now : Nanos) (secs : ℕ) (e : AiEndpoint x)
      → is_stale now (pos secs) e ≡ has_expired now secs e
  unfolding is_stale
  is_stale_lem now secs e =
      ground
        (arith, ltb-num_seconds secs now (or_else e.health.last_checked e.health.offline_since))

  -- `prune_offline` keeps an endpoint as it is unless it is offline and has been so, from
  -- `offline_since` or else the last probe, for more whole seconds than the limit; those it removes. The
  -- table keeps one entry for each endpoint.
  pub get-prune_offline :
      (endpoints : Map Text (AiEndpoint x)) (now : Nanos) (max_offline_secs : ℕ) (id : Text)
      → IsMap endpoints
      → (get (prune_offline endpoints now (pos max_offline_secs)).0 id ≡ (elim (get endpoints id) [
        | none ↦ none
        | some e ↦ if has_expired now max_offline_secs e then none else some e
      ]))
        × IsMap (prune_offline endpoints now (pos max_offline_secs)).0
  unfolding prune_offline
  get-prune_offline endpoints now secs id h = (
    get-remove_where_by (λ e. is_stale now (pos secs) e.1) (has_expired now secs) endpoints id
        (is_stale_lem now secs) h,
    remove_where-IsMap (λ e. is_stale now (pos secs) e.1) endpoints h,
  )
