-- ===== src/Queue.antt =====
-- src/queue.rs: the messages that wait for an agent which is not connected, oldest first. The clock is
-- the argument `now`, and the channel to the agent is an interface.
pub mod Delivery
pub mod Pruning
pub mod Refinement
use xfiles.Prelude.{
  ℕ, ◌+◌, Bool, Option, none, some, List, [], ◌∷◌, ◌++◌, map, length, is_empty, filter,
  if◌then◌else◌, Text, text_eq, Map,
}
use xfiles.Prelude.Maps.{get, insert, remove, map_values, remove_where}
use xfiles.Prelude.Ints.{ℤ, ltb_ℤ}
use xfiles.Prelude.Time.{Nanos, num_seconds}
use xfiles.Message.{Opaque, Message, ProtocolOp, message}
use xfiles.Channel.{Channels}

pub record QueuedMessage (x : Opaque) : Type 0 where
  pub msg : Message x
  pub enqueued_at : Nanos
  pub retries : ℕ

pub record MessageQueue (x : Opaque) : Type 0 where
  pub queues : Map Text (List (QueuedMessage x))

abbrev pub or_empty {ℓ} : {A : Type ℓ} → Option (List A) → List A
or_empty none = []
or_empty (some l) = l

module _ {x : Opaque} where
  unfoldable pub new : MessageQueue x
  new = record { queues = [] }

  -- The queue of an agent, empty where there is none.
  unfoldable pub waiting : MessageQueue x → Text → List (QueuedMessage x)
  waiting q id = or_empty (get q.queues id)

  unfoldable pub enqueue : MessageQueue x → Nanos → Text → Message x → MessageQueue x
  unfolding waiting
  enqueue q now agent_id msg =
      let qm : QueuedMessage x = record { msg = msg; enqueued_at = now; retries = 0 } in
      record q { queues = insert q.queues agent_id (waiting q agent_id ++ qm ∷ []) }

  unfoldable pub is_fresh : Nanos → ℤ → QueuedMessage x → Bool
  is_fresh now max_age_secs qm = ltb_ℤ (num_seconds now qm.enqueued_at) max_age_secs

  -- The first pass drops the old messages, the second the queues that are empty.
  unfoldable pub prune_old : MessageQueue x → Nanos → ℤ → MessageQueue x
  prune_old q now max_age_secs =
      let kept = map_values (filter (is_fresh now max_age_secs)) q.queues in
      record q { queues = remove_where (λ e. is_empty e.1) kept }

  unfoldable pub stats : MessageQueue x → List (Text × ℕ)
  stats q = map (λ e. (e.0, length e.1)) q.queues

module _ {x : Opaque} (ch : Channels (ProtocolOp x)) where
  open ch use {Sender, Net, send}

  -- The `while let` of `drain_to`: the channels, the messages that stay, and how many went.
  unfoldable pub drain :
      Net → Sender → ℕ → List (QueuedMessage x) → Net × List (QueuedMessage x) × ℕ
  drain n tx delivered [] = (n, [], delivered)
  drain n tx delivered (qm ∷ entry) =
      let (n', sent) = send n tx (message qm.msg) in
      let rest = drain n' tx (delivered + 1) entry in
      if sent then rest else (n', qm ∷ entry, delivered)

  unfoldable pub drain_to : MessageQueue x → Net → Text → Sender → MessageQueue x × Net × ℕ
  drain_to q n agent_id tx = elim (get q.queues agent_id) [
    | none ↦ (q, n, 0)
    | some entry ↦
        let (n', left, delivered) = drain n tx 0 entry in
        let kept = insert q.queues agent_id left in
        (record q { queues = if is_empty left then remove kept agent_id else kept }, n', delivered)
  ]
