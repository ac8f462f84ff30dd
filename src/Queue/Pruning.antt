-- ===== src/Queue/Pruning.antt =====
-- src/queue.rs: which messages `prune_old` drops, and the shape of the table of queues.
use xfiles.Prelude.{
  ℕ, ◌+◌, ◌<◌, ◌≡◌, ◌≢◌, inl, inr, none, some, List, [], ◌∷◌, ◌++◌, arith, is_empty, filter,
  filter_ext, append_one-ne-nil, ltb, if◌then◌else◌, Text, text_eq, Option-cases,
}
use xfiles.Prelude.Maps.{
  get, insert, remove, get-insert, IsMap, insert-IsMap, remove-IsMap, map_values, get-map_values,
  map_values-IsMap, get-remove_where, remove_where-IsMap,
}
use xfiles.Prelude.Ints.{ℤ, pos}
use xfiles.Prelude.Time.{Nanos, from_secs}
use xfiles.Message.{Opaque, Message, ProtocolOp}
use xfiles.Channel.{Channels}
use xfiles.Queue.{
  QueuedMessage, MessageQueue, new, waiting, enqueue, is_fresh, prune_old, drain, drain_to,
}
use xfiles.Queue.Delivery.{drain_to-Delivers}

module _ {x : Opaque} where
  -- The table has one queue for an agent, and none that is empty.
  pub record IsClean (q : MessageQueue x) : Type 0 where
    pub distinct : IsMap q.queues
    pub nonempty : (id : Text) → get q.queues id ≢ some []

  is_fresh_lem :
      (now : Nanos) (max_age : ℕ) (qm : QueuedMessage x)
      → 0 < max_age
      → is_fresh now (pos max_age) qm ≡ ltb now (qm.enqueued_at + from_secs max_age)
  unfolding is_fresh
  is_fresh_lem now max_age qm h = ground arith

  get-prune_old :
      (q : MessageQueue x) (now : Nanos) (max_age : ℤ) (id : Text)
      → IsMap q.queues
      → get (prune_old q now max_age).queues id ≡ (elim (get q.queues id) [
        | none ↦ none
        | some l ↦ let l' = filter (is_fresh now max_age) l in if is_empty l' then none else some l'
      ])
  unfolding prune_old
  get-prune_old q now max_age id h =
      let f : List (QueuedMessage x) → List (QueuedMessage x) = filter (is_fresh now max_age) in
      ground (
        arith,
        get-map_values f q.queues id,
        get-remove_where (λ e. is_empty e.1) (map_values f q.queues) id
            (map_values-IsMap f q.queues h),
      )

  -- With a positive age limit of `max_age` seconds, the messages that stay after `prune_old` are those
  -- enqueued less than `max_age` seconds ago, in their order, for every agent.
  pub waiting-prune_old :
      (q : MessageQueue x) (now : Nanos) (max_age : ℕ) (id : Text)
      → IsClean q
      → 0 < max_age
      → waiting (prune_old q now (pos max_age)) id
        ≡ filter (λ qm. ltb now (qm.enqueued_at + from_secs max_age)) (waiting q id)
  unfolding waiting filter
  waiting-prune_old q now max_age id c h = ground (
    arith,
    get-prune_old q now (pos max_age) id c.distinct,
    filter_ext (is_fresh now (pos max_age)) (λ qm. ltb now (qm.enqueued_at + from_secs max_age))
        (waiting q id) (λ qm. is_fresh_lem now max_age qm h),
  )

  pub new-IsClean : IsClean (new {x = x})
  unfolding new get
  new-IsClean = record { distinct = tt; nonempty = λ id. ground arith }

  pub enqueue-IsClean :
      (q : MessageQueue x) (now : Nanos) (id : Text) (msg : Message x)
      → IsClean q
      → IsClean (enqueue q now id msg)
  unfolding enqueue
  enqueue-IsClean q now id msg c =
      let qm : QueuedMessage x = record { msg = msg; enqueued_at = now; retries = 0 } in
      record {
        distinct = insert-IsMap q.queues id (waiting q id ++ qm ∷ []) c.distinct;
        nonempty = λ j. ground (
          arith,
          get-insert q.queues id j (waiting q id ++ qm ∷ []),
          append_one-ne-nil (waiting q id) qm,
          c.nonempty j,
        );
      }

  pub prune_old-IsClean :
      (q : MessageQueue x) (now : Nanos) (max_age : ℤ)
      → IsClean q
      → IsClean (prune_old q now max_age)
  prune_old-IsClean q now max_age c = record {
    distinct = distinct';
    nonempty = λ id. ground (arith, get-prune_old q now max_age id c.distinct);
  }
    where
      distinct' : IsMap (prune_old q now max_age).queues
      distinct' =
          unfold prune_old in
          remove_where-IsMap _ _
            (map_values-IsMap (filter (is_fresh now max_age)) q.queues c.distinct)

module _ {x : Opaque} (ch : Channels (ProtocolOp x)) where
  pub drain_to-IsClean :
      (q : MessageQueue x) (n : ch.Net) (id : Text) (tx : ch.Sender)
      → IsClean q
      → IsClean (drain_to ch q n id tx).0
  drain_to-IsClean q n id tx c = record { distinct = distinct'; nonempty = nonempty' }
    where
      stored :
          (l : List (QueuedMessage x))
          → IsMap (if is_empty l then remove (insert q.queues id l) id else insert q.queues id l)
      stored [] = remove-IsMap _ id (insert-IsMap q.queues id [] c.distinct)
      stored (m ∷ l) = insert-IsMap q.queues id (m ∷ l) c.distinct

      distinct' : IsMap (drain_to ch q n id tx).0.queues
      distinct' = elim (Option-cases (get q.queues id)) [
        | inl e ↦ unfold drain_to in rw (e, drain_to) c.distinct
        | inr (entry, e) ↦ unfold drain_to in rw (e, drain_to) (stored (drain ch n tx 0 entry).1)
      ]

      nonempty' : (j : Text) → get (drain_to ch q n id tx).0.queues j ≢ some []
      nonempty' j =
          let d = drain_to-Delivers ch q n id tx in
          ground (arith, d.removed, d.others j, c.nonempty j)

  -- A new table is clean: it has one queue for an agent and none that is empty; and a clean table stays
  -- so under `enqueue`, `drain_to` and `prune_old`.
  pub operations-IsClean :
      (q : MessageQueue x) (n : ch.Net) (now : Nanos) (id : Text) (tx : ch.Sender) (msg : Message x)
      (max_age : ℤ)
      → IsClean q
      → IsClean (new {x = x})
        × IsClean (enqueue q now id msg)
        × IsClean (drain_to ch q n id tx).0
        × IsClean (prune_old q now max_age)
  operations-IsClean q n now id tx msg max_age c = (
    new-IsClean,
    enqueue-IsClean q now id msg c,
    drain_to-IsClean q n id tx c,
    prune_old-IsClean q now max_age c,
  )
