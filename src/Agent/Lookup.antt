-- ===== src/Agent/Lookup.antt =====
-- src/agent.rs: what a lookup finds after a change, and which agents are stale.
use xfiles.Prelude.{
  ◌≡◌, ◌↔◌, refl, sym, ◌∙◌, true, none, some, arith, In, In-filter, In-of_map, In-map,
  if◌then◌else◌, ◌==◌, Text, text_eq, filter, subst, ℕ, ◌+◌, leb,
}
use xfiles.Prelude.Maps.{IsMap, get-insert, get-remove, get-modify, In-of_get, get_of_In}
use xfiles.Prelude.Ints.{pos}
use xfiles.Prelude.Time.{Nanos, from_secs, ltb-num_seconds}
use xfiles.Message.{Opaque}
use xfiles.Agent.{
  Agent, AgentRegistry, register, get, unregister, heartbeat, is_stale, stale_agents,
}

module _ {x : Opaque} {Sender : Type 0} where
  -- Whether the last heartbeat of the agent with that id is more than some seconds ago.
  abbrev pub IsStaleAgent : AgentRegistry x Sender → Nanos → ℕ → Text → Type 0
  IsStaleAgent r now threshold_secs id =
      (a : Agent x Sender) × (get r id ≡ some a)
      × (leb (a.last_heartbeat + from_secs (threshold_secs + 1)) now ≡ true)

  pub is_stale_lem :
      (now : Nanos) (s : ℕ) (a : Agent x Sender)
      → is_stale now (pos s) a ≡ leb (a.last_heartbeat + from_secs (s + 1)) now
  unfolding is_stale
  is_stale_lem now s a = ltb-num_seconds s now a.last_heartbeat

  -- `stale_agents` gives the ids under which an agent stands whose last heartbeat is more whole seconds
  -- ago than the threshold, and no other.
  pub In-stale_agents :
      (r : AgentRegistry x Sender) (now : Nanos) (threshold_secs : ℕ) (id : Text)
      → IsMap r.agents
      → In id (stale_agents r now (pos threshold_secs)) ↔ IsStaleAgent r now threshold_secs id
  unfolding stale_agents get
  In-stale_agents r now s id m = (found, shown)
    where
      found : In id (stale_agents r now (pos s)) → IsStaleAgent r now s id
      found h =
          let (e, q, i) =
            In-of_map (λ e. e.0) id (filter (λ e. is_stale now (pos s) e.1) r.agents) h in
          let (j, t) = (In-filter (λ e. is_stale now (pos s) e.1) e r.agents).0 i in
          (
            e.1,
            get_of_In r.agents id e.1 m (subst (λ k. In (k, e.1) r.agents) (sym q) j),
            sym (is_stale_lem now s e.1) ∙ t,
          )

      shown : IsStaleAgent r now s id → In id (stale_agents r now (pos s))
      shown (a, e, t) =
          In-map (λ e. e.0) (id, a) (filter (λ e. is_stale now (pos s) e.1) r.agents)
            ((In-filter (λ e. is_stale now (pos s) e.1) (id, a) r.agents).1
              (In-of_get r.agents id a e, is_stale_lem now s a ∙ t))

  -- After a registration, the end of one or a heartbeat, a lookup finds the agent that registered,
  -- nothing, or the agent with the new time; under the other ids it finds what it did. `unregister`
  -- returns what a lookup found.
  pub get-operations :
      (r : AgentRegistry x Sender) (a : Agent x Sender) (id key : Text) (now : Nanos)
      → (get (register r a) key ≡ (if a.id == key then some a else get r key))
        × ((unregister r id).1 ≡ get r id)
        × (get (unregister r id).0 key ≡ (if id == key then none else get r key))
        × (get (heartbeat r now id) key ≡ (
            if id == key
            then (elim (get r key) [
              | none ↦ none
              | some b ↦ some (record b { last_heartbeat = now })
            ])
            else get r key))
  unfolding register get unregister heartbeat
  get-operations r a id key now = (
    get-insert r.agents a.id key a,
    refl,
    get-remove r.agents id key,
    get-modify r.agents id key _ ∙ ground arith,
  )
