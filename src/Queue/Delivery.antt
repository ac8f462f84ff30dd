-- ===== src/Queue/Delivery.antt =====
-- src/queue.rs: no message is lost, made up or put out of order on its way through the queue.
use mathlib.Core.List.{append_assoc}
use xfiles.Prelude.{
  ℕ, ◌+◌, ◌≡◌, ◌≢◌, refl, sym, ap, ◌∙◌, inl, inr, true, some, List, [], ◌∷◌, ◌++◌, map, arith,
  length, is_empty, if◌then◌else◌, ◌==◌, eq_iff, eq_refl, Text, text_eq, Bool-cases, Option-cases,
}
use xfiles.Prelude.Maps.{get, insert, remove, get-insert, get-remove}
use xfiles.Prelude.Time.{Nanos}
use xfiles.Message.{Opaque, Message, ProtocolOp, message}
use xfiles.Channel.{Channels}
use xfiles.Queue.{QueuedMessage, MessageQueue, or_empty, waiting, enqueue, drain, drain_to}

module _ {x : Opaque} where
  -- The operations by which queued messages are delivered.
  abbrev pub ops : List (QueuedMessage x) → List (ProtocolOp x)
  ops = map (λ qm. message qm.msg)

  pub waiting-enqueue :
      (q : MessageQueue x) (now : Nanos) (id j : Text) (msg : Message x)
      → waiting (enqueue q now id msg) j ≡ (
          if id == j
          then waiting q j ++ record { msg = msg; enqueued_at = now; retries = 0 } ∷ []
          else waiting q j)
  unfolding waiting enqueue
  waiting-enqueue q now id j msg = ground (
    arith,
    eq_iff id j,
    get-insert q.queues id j
        (or_empty (get q.queues id) ++ record { msg = msg; enqueued_at = now; retries = 0 } ∷ []),
  )

module _ {x : Opaque} (ch : Channels (ProtocolOp x)) where
  open ch use {Sender, Net, send, sent, sent-send_ok, send_err}

  -- What the loop does to the channel and to the queue.
  record Drained (n : Net) (tx : Sender) (k : ℕ) (entry : List (QueuedMessage x))
      (r : Net × List (QueuedMessage x) × ℕ) : Type 0 where
    conserved : sent r.0 tx ++ ops r.1 ≡ sent n tx ++ ops entry
    counted : r.2 + length r.1 ≡ k + length entry

  drain-Drained :
      (n : Net) (tx : Sender) (k : ℕ) (entry : List (QueuedMessage x))
      → Drained n tx k entry (drain ch n tx k entry)
  unfolding drain
  drain-Drained n tx k [] = record { conserved = refl; counted = refl }
  drain-Drained n tx k (qm ∷ entry) = elim (Bool-cases (send n tx (message qm.msg)).1) [
    | inl e ↦
        let n' = (send n tx (message qm.msg)).0 in
        let h = drain-Drained n' tx (k + 1) entry in
        rw e (record {
          conserved =
              h.conserved
              ∙ ap (λ l. l ++ ops entry) (sent-send_ok n tx (message qm.msg) e)
              ∙ append_assoc (sent n tx) (message qm.msg ∷ []) (ops entry);
          counted = omega (arith, h.counted);
        })
    | inr e ↦ rw e (record {
      conserved = ap (λ m. sent m tx ++ ops (qm ∷ entry)) (send_err n tx (message qm.msg) e);
      counted = refl;
    })
  ]

  -- What a call of `drain_to` for an agent does, to the channel `tx` and to the queues.
  pub record Delivers (q : MessageQueue x) (n : Net) (id : Text) (tx : Sender)
      (r : MessageQueue x × Net × ℕ) : Type 0 where
    pub conserved : sent r.1 tx ++ ops (waiting r.0 id) ≡ sent n tx ++ ops (waiting q id)
    pub counted : r.2 + length (waiting r.0 id) ≡ length (waiting q id)
    pub removed : get r.0.queues id ≢ some []
    pub others :
        (j : Text) → get r.0.queues j ≡ (if id == j then get r.0.queues id else get q.queues j)

  -- The table after the loop has kept `left`.
  pub store_left :
      (q : MessageQueue x) (id : Text) (left : List (QueuedMessage x)) (j : Text)
      → let kept = insert q.queues id left in
        let q' : MessageQueue x = record {
          queues = if is_empty left then remove kept id else kept;
        } in
        (waiting q' id ≡ left)
        × (get q'.queues id ≢ some [])
        × (get q'.queues j ≡ (if id == j then get q'.queues id else get q.queues j))
  unfolding waiting
  store_left q id [] j = (
    ground (arith, get-remove (insert q.queues id []) id id, eq_refl id),
    ground (arith, get-remove (insert q.queues id []) id id, eq_refl id),
    ground (
      arith,
      eq_refl id,
      get-remove (insert q.queues id []) id id,
      get-remove (insert q.queues id []) id j,
      get-insert q.queues id j [],
      eq_iff id j,
    ),
  )
  store_left q id (qm ∷ left) j = (
    ground (arith, get-insert q.queues id id (qm ∷ left), eq_refl id),
    ground (arith, get-insert q.queues id id (qm ∷ left), eq_refl id),
    ground (
      arith,
      get-insert q.queues id id (qm ∷ left),
      eq_refl id,
      get-insert q.queues id j (qm ∷ left),
      eq_iff id j,
    ),
  )

  -- `drain_to` hands the oldest messages of the agent to its channel, in order, and keeps the rest in
  -- order: what the channel was given and what still waits make up what there was before. It returns
  -- how many went, leaves no empty queue behind, and touches no other agent's queue.
  pub drain_to-Delivers :
      (q : MessageQueue x) (n : Net) (id : Text) (tx : Sender)
      → Delivers q n id tx (drain_to ch q n id tx)
  unfolding drain_to waiting
  drain_to-Delivers q n id tx = elim (Option-cases (get q.queues id)) [
    | inl e ↦
        rw (e, drain_to)
          (record {
            conserved = refl;
            counted = omega arith;
            removed = ground arith;
            others = λ j. ground (arith, eq_iff id j);
          })
    | inr (entry, e) ↦
        let w : waiting q id ≡ entry = ap or_empty e in
        let left = (drain ch n tx 0 entry).1 in
        let d = drain-Drained n tx 0 entry in
        let stored = store_left q id left id in
        rw (e, drain_to)
          (record {
            conserved =
                ap (λ l. sent (drain ch n tx 0 entry).0 tx ++ ops l) stored.0
                ∙ d.conserved
                ∙ ap (λ l. sent n tx ++ ops l) (sym w);
            counted = omega (arith, d.counted, ap length stored.0, ap length w);
            removed = stored.1;
            others = λ j. (store_left q id left j).2;
          })
  ]

  -- Where every `send` on the channel succeeds, nothing is left waiting for the agent.
  drain_all :
      (n : Net) (tx : Sender) (k : ℕ) (entry : List (QueuedMessage x))
      → ((m : Net) (o : ProtocolOp x) → (send m tx o).1 ≡ true)
      → (drain ch n tx k entry).1 ≡ []
  unfolding drain
  drain_all n tx k [] open_channel = refl
  drain_all n tx k (qm ∷ entry) open_channel =
      rw (open_channel n (message qm.msg))
        (drain_all (send n tx (message qm.msg)).0 tx (k + 1) entry open_channel)

  -- On a channel whose receiver stays alive, `drain_to` leaves nothing waiting for the agent, and the
  -- number that it returns is the number of messages that were waiting.
  pub drain_to_complete :
      (q : MessageQueue x) (n : Net) (id : Text) (tx : Sender)
      → ((m : Net) (o : ProtocolOp x) → (send m tx o).1 ≡ true)
      → (waiting (drain_to ch q n id tx).0 id ≡ [])
        × ((drain_to ch q n id tx).2 ≡ length (waiting q id))
  unfolding drain_to waiting
  drain_to_complete q n id tx open_channel =
      let d = drain_to-Delivers q n id tx in (emptied, omega (arith, d.counted, ap length emptied))
    where
      emptied : waiting (drain_to ch q n id tx).0 id ≡ []
      emptied = elim (Option-cases (get q.queues id)) [
        | inl e ↦ rw (e, drain_to) (ap or_empty e)
        | inr (entry, e) ↦
            rw (e, drain_to)
              ((store_left q id (drain ch n tx 0 entry).1 id).0
                ∙ drain_all n tx 0 entry open_channel)
      ]
