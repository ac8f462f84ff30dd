-- ===== src/Transport/Sessions.antt =====
-- src/net/transport.rs: whose channel stands in the registry when connections come and go.
use xfiles.Prelude.{
  ℕ, ◌≡◌, ◌⊎◌, inl, inr, refl, sym, ap, ◌∙◌, true, false, Option, none, some, arith, ◌==◌, eq_iff,
  Text, text_eq, Option-cases, Bool-cases, subst,
}
use xfiles.Prelude.Maps.{get-insert, get-remove}
use xfiles.Message.{
  Opaque, ProtocolOp, hello, heartbeat, message, response, feedback, fs_read, fs_write, fs_result,
  ack, nak, error,
}
use xfiles.Channel.{Channels}
use xfiles.Floats.{Floats, Random}
use xfiles.Agent.{Agent, AgentRegistry, register, unregister, heartbeat as beat, get as get_agent}
use xfiles.Agent.Lookup.{get-operations}
use xfiles.Plumber.{Patterns}
use xfiles.Vfs.Vnode.{Utf8}
use xfiles.Transport.Frames.{agents-deliver, agents-handle_fs_read, agents-handle_fs_write}
use xfiles.Transport.{
  Hub, Moment, choose, handle_hello, handle_message, handle_op, from_agent, new_agent, teardown,
  teardown_of,
}

module _ {x : Opaque} (re : Patterns x) (fl : Floats) (rand : Random fl)
    (ch : Channels (ProtocolOp x)) (u : Utf8) where
  -- What happens to the hub: an operation of a connection, the end of one, or the removal of an agent
  -- that has become stale.
  pub data Event : Type 0 where
    ran : Moment re fl rand ch u → Text → ch.Sender → ProtocolOp x → Event
    ended : Text → ch.Sender → Event
    pruned : Text → Event

  unfoldable pub step : Hub re fl rand ch u → Event → Hub re fl rand ch u
  unfolding handle_op teardown
  step h (ran t id tx op) = handle_op re fl rand ch u h t id tx op
  step h (ended id tx) = teardown re fl rand ch u h id tx
  step h (pruned id) = record h { agents = (unregister h.agents id).0 }

  -- Events that neither register the agent over another connection, nor end this one, nor prune the
  -- agent.
  abbrev pub IsForeign : Text → ch.Sender → Event → Type 0
  IsForeign id tx (ran t j tx' (hello manifest)) = ((j == id) ≡ false) ⊎ (tx' ≡ tx)
  IsForeign id tx (ran t j tx' op) = Unit
  IsForeign id tx (ended j tx') = ((j == id) ≡ false) ⊎ (ch.same_channel tx tx' ≡ false)
  IsForeign id tx (pruned j) = (j == id) ≡ false

  -- The hubs that such events lead to.
  pub data Leads (id : Text) (tx : ch.Sender) (h : Hub re fl rand ch u)
      : Hub re fl rand ch u → Type 0 where
    start : Leads id tx h h
    next :
        (h' : Hub re fl rand ch u) (e : Event)
        → Leads id tx h h'
        → IsForeign id tx e
        → Leads id tx h (step h' e)

  -- The agent is registered with this channel.
  abbrev pub HasChannel : Text → ch.Sender → AgentRegistry x ch.Sender → Type 0
  HasChannel id tx r = (a : Agent x ch.Sender) × (get_agent r id ≡ some a) × (a.tx ≡ some tx)

  HasChannel-same :
      (id : Text) (tx : ch.Sender) (r r' : AgentRegistry x ch.Sender)
      → get_agent r' id ≡ get_agent r id
      → HasChannel id tx r
      → HasChannel id tx r'
  HasChannel-same id tx r r' e (a, g, k) = (a, e ∙ g, k)

  get-register_other :
      (r : AgentRegistry x ch.Sender) (a : Agent x ch.Sender) (id : Text)
      → (a.id == id) ≡ false
      → get_agent (register r a) id ≡ get_agent r id
  unfolding register get_agent
  get-register_other r a id f = get-insert r.agents a.id id a ∙ rw f refl

  get-unregister_other :
      (r : AgentRegistry x ch.Sender) (j id : Text)
      → (j == id) ≡ false
      → get_agent (unregister r j).0 id ≡ get_agent r id
  unfolding unregister get_agent
  get-unregister_other r j id f = get-remove r.agents j id ∙ rw f refl

  -- A hello of another agent, or of this one over its own channel once more.
  register-HasChannel :
      (r : AgentRegistry x ch.Sender) (a : Agent x ch.Sender) (id : Text) (tx tx' : ch.Sender)
      → a.tx ≡ some tx'
      → ((a.id == id) ≡ false) ⊎ (tx' ≡ tx)
      → HasChannel id tx r
      → HasChannel id tx (register r a)
  unfolding register get_agent
  register-HasChannel r a id tx tx' k f c = elim (Bool-cases (a.id == id)) [
    | inl e ↦ elim f [
      | inl o ↦ absurd (ground (arith, e, o))
      | inr own ↦ (a, get-insert r.agents a.id id a ∙ rw e refl, k ∙ ap some own)
    ]
    | inr e ↦ HasChannel-same id tx r (register r a) (get-register_other r a id e) c
  ]

  heartbeat-HasChannel :
      (r : AgentRegistry x ch.Sender) (now : ℕ) (j id : Text) (tx : ch.Sender)
      → HasChannel id tx r
      → HasChannel id tx (beat r now j)
  heartbeat-HasChannel r now j id tx (a, g, k) =
      let h = (get-operations r a j id now).3 in
      elim (Bool-cases (j == id)) [
        | inl e ↦ (record a { last_heartbeat = now }, h ∙ rw (e, g) refl, k)
        | inr e ↦ (a, h ∙ rw (e, g) refl, k)
      ]

  same_tx :
      (b a : Agent x ch.Sender) (s t : ch.Sender)
      → some b ≡ some a
      → b.tx ≡ some s
      → a.tx ≡ some t
      → s ≡ t
  same_tx b a s t g k l = ap (tx_or t) (sym k ∙ ap tx_of g ∙ l)
    where
      tx_of : Option (Agent x ch.Sender) → Option ch.Sender
      tx_of none = none
      tx_of (some c) = c.tx

      tx_or : ch.Sender → Option ch.Sender → ch.Sender
      tx_or d none = d
      tx_or d (some c) = c

  teardown-HasChannel :
      (h : Hub re fl rand ch u) (j id : Text) (tx tx' : ch.Sender)
      → IsForeign id tx (ended j tx')
      → HasChannel id tx h.agents
      → HasChannel id tx (teardown re fl rand ch u h j tx').agents
  unfolding teardown teardown_of
  teardown-HasChannel h j id tx tx' f c = elim (Option-cases (get_agent h.agents j)) [
    | inl e ↦ rw (e, teardown) c
    | inr (b, e) ↦ rw (e, teardown) (ends b e (Option-cases b.tx))
  ]
    where
      leaves :
          (b : Agent x ch.Sender) (stored : ch.Sender)
          → get_agent h.agents j ≡ some b
          → b.tx ≡ some stored
          → ch.same_channel stored tx' ≡ true
          → HasChannel id tx (unregister h.agents j).0
      leaves b stored e k s = elim (Bool-cases (j == id)) [
        | inl d ↦ absurd (elim f [
          | inl o ↦ ground (arith, d, o)
          | inr o ↦
              let g : some b ≡ some c.0 =
                sym e ∙ ap (get_agent h.agents) ((eq_iff j id).0 d) ∙ c.1 in
              ground (
                arith,
                o,
                sym s ∙ ap (λ t. ch.same_channel t tx') (same_tx b c.0 stored tx g k c.2),
              )
        ])
        | inr d ↦ HasChannel-same id tx h.agents _ (get-unregister_other h.agents j id d) c
      ]

      ends :
          (b : Agent x ch.Sender)
          → get_agent h.agents j ≡ some b
          → (b.tx ≡ none) ⊎ ((stored : ch.Sender) × (b.tx ≡ some stored))
          → HasChannel id tx (teardown_of re fl rand ch u h j tx' (some b)).agents
      ends b e (inl k) = rw (k, teardown_of) c
      ends b e (inr (stored, k)) = elim (Bool-cases (ch.same_channel stored tx')) [
        | inl s ↦ rw (k, s, teardown_of) (leaves b stored e k s)
        | inr s ↦ rw (k, s, teardown_of) c
      ]

  step-HasChannel :
      (id : Text) (tx : ch.Sender) (h : Hub re fl rand ch u) (e : Event)
      → IsForeign id tx e
      → HasChannel id tx h.agents
      → HasChannel id tx (step h e).agents
  unfolding step handle_op handle_hello handle_message choose
  step-HasChannel id tx h (ran t j tx' (hello manifest)) f c =
      register-HasChannel h.agents (new_agent re fl rand ch u t j tx' manifest) id tx tx' refl f c
  step-HasChannel id tx h (ran t j tx' heartbeat) f c =
      heartbeat-HasChannel h.agents t.utc j id tx c
  step-HasChannel id tx h (ran t j tx' (message msg)) f c =
      let m = from_agent re fl rand ch u j msg in
      let (h', dest) = choose re fl rand ch u h t m in
      subst (HasChannel id tx) (sym (agents-deliver re fl rand ch u h' t dest m)) c
  step-HasChannel id tx h (ran t j tx' (fs_read path)) f c =
      subst (HasChannel id tx) (sym (agents-handle_fs_read re fl rand ch u h tx' path)) c
  step-HasChannel id tx h (ran t j tx' (fs_write path bytes)) f c =
      subst (HasChannel id tx) (sym (agents-handle_fs_write re fl rand ch u h tx' path bytes)) c
  step-HasChannel id tx h (ran t j tx' (ack i)) f c = c
  step-HasChannel id tx h (ran t j tx' (nak i reason)) f c = c
  step-HasChannel id tx h (ran t j tx' (response r)) f c = c
  step-HasChannel id tx h (ran t j tx' (feedback r)) f c = c
  step-HasChannel id tx h (ran t j tx' (fs_result path bytes err)) f c = c
  step-HasChannel id tx h (ran t j tx' (error code text)) f c = c
  step-HasChannel id tx h (ended j tx') f c = teardown-HasChannel h j id tx tx' f c
  step-HasChannel id tx h (pruned j) f c =
      HasChannel-same id tx h.agents _ (get-unregister_other h.agents j id f) c

  -- An agent that is registered with a channel stays registered with it whatever the connections do,
  -- the end of a connection that was superseded included, as long as it says hello over no other
  -- connection, its own does not end, and it is not removed as stale.
  pub Leads-HasChannel :
      (id : Text) (tx : ch.Sender) (h h' : Hub re fl rand ch u)
      → Leads id tx h h'
      → HasChannel id tx h.agents
      → HasChannel id tx h'.agents
  Leads-HasChannel id tx h h' start c = c
  Leads-HasChannel id tx h _ (next h' e l f) c =
      step-HasChannel id tx h' e f (Leads-HasChannel id tx h h' l c)
