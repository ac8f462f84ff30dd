-- ===== src/Daemon/Upkeep.antt =====
-- src/daemon.rs: what the task that removes stale agents leaves.
use xfiles.Prelude.{
  ℕ, ◌+◌, ◌*◌, ◌^◌, ◌<◌, max, ◌≡◌, refl, ap, ◌∙◌, none, some, List, [], ◌∷◌, arith, leb,
  if◌then◌else◌, Text, text_eq, nat_eq,
}
use xfiles.Prelude.Maps.{get as get_entry, IsMap, remove_all, remove_where, get-remove_where_by}
use xfiles.Prelude.Ints.{pos, as_i64}
use xfiles.Prelude.Time.{Nanos, from_secs}
use xfiles.Message.{Opaque, ProtocolOp}
use xfiles.Channel.{Channels}
use xfiles.Floats.{Floats, Random}
use xfiles.Agent.{AgentRegistry, get as get_agent, unregister, stale_agents, is_stale}
use xfiles.Agent.Lookup.{is_stale_lem}
use xfiles.Plumber.{Patterns}
use xfiles.Mcp.{Json}
use xfiles.Vfs.Vnode.{Utf8}
use xfiles.Daemon.{unregister_all, cleanup_agents, stale_secs}

module _ {x : Opaque} (re : Patterns x) (fl : Floats) (rand : Random fl)
    (ch : Channels (ProtocolOp x)) (u : Utf8) (json : Json x) where
  unregister_all-remove_all :
      (r : AgentRegistry x ch.Sender) (ids : List Text)
      → (unregister_all re fl rand ch u json r ids).agents ≡ remove_all r.agents ids
  unfolding unregister_all unregister remove_all
  unregister_all-remove_all r [] = refl
  unregister_all-remove_all r (id ∷ ids) = unregister_all-remove_all (unregister r id).0 ids

  -- An interval of less than 2^62 seconds.
  stale_secs_small :
      (interval : ℕ)
      → interval < 2 ^ 62
      → as_i64 (stale_secs re fl rand ch u json interval) ≡ pos (max (2 * interval) 120)
  stale_secs_small interval h = ground arith

  -- The task that removes stale agents keeps an agent exactly if its last heartbeat is no more whole
  -- seconds ago than twice the interval of heartbeats and than 120; the others it leaves as they are.
  -- The interval is less than 2^62 seconds, and the table has one entry for an agent.
  pub get-cleanup_agents :
      (r : AgentRegistry x ch.Sender) (now : Nanos) (interval : ℕ) (id : Text)
      → IsMap r.agents
      → interval < 2 ^ 62
      → let s = max (2 * interval) 120 in
        get_agent (cleanup_agents re fl rand ch u json r now interval) id ≡ (elim (get_agent r id) [
          | none ↦ none
          | some a ↦ if leb (a.last_heartbeat + from_secs (s + 1)) now then none else some a
        ])
  unfolding cleanup_agents stale_agents get_agent remove_where
  get-cleanup_agents r now interval id m i =
      let s = max (2 * interval) 120 in
      let ids = stale_agents r now (as_i64 (stale_secs re fl rand ch u json interval)) in
      ap (λ t. get_entry t id) (unregister_all-remove_all r ids)
      ∙ ap (λ z. get_entry (remove_all r.agents (stale_agents r now z)) id)
          (stale_secs_small interval i)
      ∙ get-remove_where_by (λ e. is_stale now (pos s) e.1)
          (λ a. leb (a.last_heartbeat + from_secs (s + 1)) now) r.agents id (is_stale_lem now s) m
